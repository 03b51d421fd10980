-- ===== src/Logfile/Files.antt =====
-- Files of a directory, of which the last is written to (crates/tributary/src/logfile.rs).
use tributary.Prelude.{
  ℕ, zero, suc, ◌≡◌, ◌∙◌, refl, sym, ap, false, List, [], ◌∷◌, ◌++◌, none, some, Text, arith, inl,
  inr, text_eq, text_eq_iff, text_has_eq, lookup, insert, remove, append_assoc, append-nil,
  Option-cases,
}
use tributary.Logfile.{target, candidate}

abbrev pub Dir : Type 0
Dir = List (Text × Text)

-- The bytes of all files, in the order of the directory.
abbrev pub contents : Dir → Text
contents [] = []
contents ((file, bytes) ∷ dir) = bytes ++ contents dir

pub contents-append : (a b : Dir) → contents (a ++ b) ≡ contents a ++ contents b
contents-append [] b = refl
contents-append ((file, bytes) ∷ a) b =
    ap (◌++◌ bytes) (contents-append a b) ∙ sym (append_assoc bytes (contents a) (contents b))

pub contents-last :
    (file bytes : Text) (m : Dir) → contents (m ++ (file, bytes) ∷ []) ≡ contents m ++ bytes
contents-last file bytes m =
    contents-append m ((file, bytes) ∷ []) ∙ ap (◌++◌ (contents m)) (append-nil bytes)

pub lookup-last : (k w : Text) (m : Dir) → lookup k m ≡ none → lookup k (m ++ (k, w) ∷ []) ≡ some w
unfolding lookup
lookup-last k w [] h = ground (arith, text_eq_iff k k)
lookup-last k w ((j, v) ∷ m) h = ground (arith, h, lookup-last k w m)

pub lookup-front : (k : Text) (m n : Dir) → lookup k (m ++ n) ≡ none → lookup k m ≡ none
unfolding lookup
lookup-front k [] n h = refl
lookup-front k ((j, v) ∷ m) n h = ground (arith, h, lookup-front k m n)

pub lookup-behind :
    (k j w : Text) (m : Dir)
    → lookup k m ≡ none
    → text_eq j k ≡ false
    → lookup k (m ++ (j, w) ∷ []) ≡ none
unfolding lookup
lookup-behind k j w [] h d = ground (arith, d)
lookup-behind k j w ((i, v) ∷ m) h d = ground (arith, h, d, lookup-behind k j w m)

pub lookup-value :
    (k j w v : Text) (m : Dir)
    → lookup k (m ++ (j, w) ∷ []) ≡ none
    → lookup k (m ++ (j, v) ∷ []) ≡ none
unfolding lookup
lookup-value k j w v [] h = ground (arith, h)
lookup-value k j w v ((i, u) ∷ m) h = ground (arith, h, lookup-value k j w v m)

pub insert-new : (k v : Text) (m : Dir) → lookup k m ≡ none → insert k v m ≡ m ++ (k, v) ∷ []
unfolding lookup insert
insert-new k v [] h = refl
insert-new k v ((j, w) ∷ m) h = ground (arith, h, insert-new k v m)

pub insert-last :
    (k v w : Text) (m : Dir) → lookup k m ≡ none → insert k v (m ++ (k, w) ∷ []) ≡ m ++ (k, v) ∷ []
unfolding lookup insert
insert-last k v w [] h = ground (arith, text_eq_iff k k)
insert-last k v w ((j, u) ∷ m) h = ground (arith, h, insert-last k v w m)

pub remove-last : (k w : Text) (m : Dir) → lookup k m ≡ none → remove k (m ++ (k, w) ∷ []) ≡ m
unfolding lookup remove
remove-last k w [] h = ground (arith, text_eq_iff k k)
remove-last k w ((j, u) ∷ m) h = ground (arith, h, remove-last k w m)

pub target-new :
    (tries : ℕ) (name stamp : Text) (n : ℕ) (dir : Dir) (p : Text)
    → target tries name stamp n dir ≡ some p
    → lookup p dir ≡ none
unfolding target
target-new zero name stamp n dir p h = ground (arith, h)
target-new (suc tries) name stamp n dir p h =
    elim (Option-cases (lookup (candidate name stamp n) dir)) [
      | inl fresh ↦ ground (arith, h, fresh)
      | inr (bytes, taken) ↦ ground (arith, h, taken, target-new tries name stamp (suc n) dir p)
    ]
