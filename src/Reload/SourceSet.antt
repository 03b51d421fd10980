-- ===== src/Reload/SourceSet.antt =====
-- `diff_source_set` of crates/tributary/src/main.rs, and the sources that run behind it in
-- `reload_source_set`. The keys of a `HashMap` are a list of names.
use tributary.Prelude.{
  ℕ, suc, ◌≡◌, ◌∙◌, refl, sym, ap, ap₂, Bool, true, false, not, ◌||◌, ◌&&◌, List, [], ◌∷◌, ◌++◌,
  Option, none, some, Text, u64_add, arith, text_eq, text_eq_iff, if◌then◌else◌, get_elem?, length,
  ltb, append_assoc, length-append, Bool-cases, inl, inr,
}
use tributary.Prelude.Sort.{sort_by, count, count-sort_by}
use tributary.Queue.{name_le}
use tributary.Reload.{Reloads, refuse}

abbrev pub has : Text → List Text → Bool
has x [] = false
has x (y ∷ ys) = text_eq y x || has x ys

-- The names that pass the test.
abbrev pub keep_if : (Text → Bool) → List Text → List Text
keep_if f [] = []
keep_if f (x ∷ xs) = if f x then x ∷ keep_if f xs else keep_if f xs

-- The positions, counted from `i`, of the names that pass it.
abbrev pub positions : (Text → Bool) → ℕ → List Text → List ℕ
positions f i [] = []
positions f i (x ∷ xs) = if f x then i ∷ positions f (suc i) xs else positions f (suc i) xs

unfoldable pub diff_source_set : List Text → List Text → List Text × List ℕ
unfolding name_le
diff_source_set running configured = (
  sort_by name_le (keep_if (λ n. not (has n configured)) running),
  positions (λ n. not (has n running)) 0 configured,
)

-- The names at the positions, in the configuration.
abbrev pub names_at : List Text → List ℕ → List Text
names_at names [] = []
names_at names (i ∷ is) = elim (get_elem? names i) [
  | none ↦ names_at names is
  | some n ↦ n ∷ names_at names is
]

-- The tasks of the sources by name, and what a reload counts.
pub record SourceSet : Type 0 where
  pub running : List Text
  pub reload_gen : ℕ
  pub reloads : Reloads

-- What a reload did: the sources it told to stop, those it started, and the set behind it.
pub record Resourced : Type 0 where
  pub stopped : List Text
  pub started : List Text
  pub set : SourceSet

unfoldable pub reload_source_set : Option (List Text) → SourceSet → Resourced
unfolding diff_source_set
reload_source_set none s = record {
  stopped = [];
  started = [];
  set = record s { reloads = refuse s.reloads };
}
reload_source_set (some configured) s =
    let (removed, added) = diff_source_set s.running configured in
    let started = names_at configured added in
    record {
      stopped = removed;
      started = started;
      set = record {
        running = keep_if (λ n. not (has n removed)) s.running ++ started;
        reload_gen = u64_add s.reload_gen 1;
        reloads = record s.reloads { config_last_reload_ok = true };
      };
    }

has-keep_if :
    (x : Text) (f : Text → Bool) (xs : List Text) → has x (keep_if f xs) ≡ (has x xs && f x)
has-keep_if x f [] = refl
has-keep_if x f (y ∷ ys) = elim (Bool-cases (text_eq y x)) [
  | inl e ↦
      let same : f y ≡ f x = ap f ((text_eq_iff y x).0 e) in
      ground (arith, e, same, has-keep_if x f ys)
  | inr d ↦ ground (arith, d, has-keep_if x f ys)
]

has-append : (x : Text) (xs ys : List Text) → has x (xs ++ ys) ≡ (has x xs || has x ys)
has-append x [] ys = refl
has-append x (z ∷ xs) ys = ground (arith, has-append x xs ys)

has-count : (x : Text) (xs : List Text) → has x xs ≡ ltb 0 (count (λ y. text_eq y x) xs)
has-count x [] = refl
has-count x (y ∷ ys) = ground (arith, has-count x ys)

has-sort_by : (x : Text) (xs : List Text) → has x (sort_by name_le xs) ≡ has x xs
has-sort_by x xs =
    has-count x (sort_by name_le xs)
    ∙ ap (ltb 0) (count-sort_by name_le (λ y. text_eq y x) xs)
    ∙ sym (has-count x xs)

get_here :
    (before : List Text) (y : Text) (ys : List Text)
    → get_elem? (before ++ y ∷ ys) (length before) ≡ some y
get_here [] y ys = refl
get_here (b ∷ before) y ys = get_here before y ys

-- The positions lead back to the names that passed the test.
names-positions :
    (f : Text → Bool) (before ys : List Text)
    → names_at (before ++ ys) (positions f (length before) ys) ≡ keep_if f ys
names-positions f before [] = refl
names-positions f before (y ∷ ys) =
    let next : names_at (before ++ y ∷ ys) (positions f (suc (length before)) ys) ≡ keep_if f ys =
      ap₂ (λ names i. names_at names (positions f i ys)) (sym (append_assoc before (y ∷ []) ys))
        (omega (arith, length-append before (y ∷ [])))
      ∙ names-positions f (before ++ y ∷ []) ys in
    elim (Bool-cases (f y)) [
      | inl t ↦ rw (t, names_at, get_here before y ys) (ap (◌∷◌ y) next)
      | inr e ↦ rw e next
    ]

kept_or_added : (a b : Bool) → ((a && not (a && not b)) || (b && not a)) ≡ b
kept_or_added true true = refl
kept_or_added true false = refl
kept_or_added false true = refl
kept_or_added false false = refl

-- What a reload of the set is to do about one name.
abbrev pub Resources : Text → Option (List Text) → SourceSet → Resourced → Type 0
Resources x none s r =
    (r.set.running ≡ s.running)
    × (r.stopped ≡ [])
    × (r.started ≡ [])
    × (r.set.reloads.config_last_reload_ok ≡ false)
Resources x (some configured) s r =
    (has x r.set.running ≡ has x configured)
    × (has x r.stopped ≡ (has x s.running && not (has x configured)))
    × (has x r.started ≡ (has x configured && not (has x s.running)))
    × (r.set.reloads.config_last_reload_ok ≡ true)

has-removed :
    (x : Text) (running configured : List Text)
    → has x (sort_by name_le (keep_if (λ n. not (has n configured)) running))
      ≡ (has x running && not (has x configured))
has-removed x running configured =
    has-sort_by x (keep_if (λ n. not (has n configured)) running)
    ∙ has-keep_if x (λ n. not (has n configured)) running

has-added :
    (x : Text) (running configured : List Text)
    → has x (names_at configured (positions (λ n. not (has n running)) 0 configured))
      ≡ (has x configured && not (has x running))
has-added x running configured =
    ap (has x) (names-positions (λ n. not (has n running)) [] configured)
    ∙ has-keep_if x (λ n. not (has n running)) configured

-- A configuration that does not load leaves the sources as they are. Behind a reload of one that does,
-- a source runs exactly if it is configured; exactly those are told to stop that ran and are no longer
-- configured, and exactly those are started that are configured and did not run.
pub reload_source_set-Resources :
    (configured : Option (List Text)) (s : SourceSet) (x : Text)
    → Resources x configured s (reload_source_set configured s)
unfolding reload_source_set diff_source_set
reload_source_set-Resources none s x = (refl, refl, refl, refl)
reload_source_set-Resources (some configured) s x =
    let removed = sort_by name_le (keep_if (λ n. not (has n configured)) s.running) in
    let added = names_at configured (positions (λ n. not (has n s.running)) 0 configured) in
    let gone = has-removed x s.running configured in
    let new = has-added x s.running configured in
    (
      has-append x (keep_if (λ n. not (has n removed)) s.running) added
          ∙ ap₂ (λ a b. a || b) (has-keep_if x (λ n. not (has n removed)) s.running) new
          ∙ ap (λ g. (has x s.running && not g) || (has x configured && not (has x s.running))) gone
          ∙ kept_or_added (has x s.running) (has x configured),
      gone,
      new,
      refl,
    )
