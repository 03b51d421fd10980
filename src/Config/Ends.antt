-- ===== src/Config/Ends.antt =====
-- The loop of `expand_env_into` of crates/tributary/src/config.rs ends.
use tributary.Prelude.{
  ℕ, zero, suc, ◌-◌, ◌<◌, ◌≤◌, ◌≡◌, refl, ap, List, [], ◌∷◌, ◌++◌, Option, none, some, Text, codes,
  arith, ◌==◌, length, Option-cases, Bool-cases, inl, inr,
}
use tributary.Config.Expand.{
  Env, note, require, endless, unset_variable, Loading, ok, err, split_at, with_first, ref_at,
  find_ref, note_unset, prepend, expand_loop, expand_env_into,
}

-- A value, or an error of the source's.
abbrev pub IsEnded {ℓ} : {A : Type ℓ} → Loading A → Type 0
IsEnded (ok a unset) = Unit
IsEnded (err e) = elim e [ endless ↦ ⊥ | other ↦ Unit ]

abbrev left : Option (Text × Text) → ℕ
left none = 0
left (some (t, u)) = length u

left-with_first : (c : ℕ) (o : Option (Text × Text)) → left (with_first c o) ≡ left o
left-with_first c none = refl
left-with_first c (some (t, u)) = refl

split_at-left : (b : ℕ) (s : Text) → left (split_at b s) ≤ length s - 1
unfolding split_at
split_at-left b [] = omega arith
split_at-left b (c ∷ s) = elim (Bool-cases (c == b)) [
  | inl t ↦ rw (split_at, t) (omega arith)
  | inr e ↦ rw (split_at, e) (omega (arith, split_at-left b s, left-with_first c (split_at b s)))
]

ref_at-left : (c : ℕ) (s after : Text) → ref_at (c ∷ s) ≡ some after → length after ≤ length s
unfolding ref_at
ref_at-left c [] after h = ground (arith, h)
ref_at-left c (d ∷ s) after h = ground (arith, h)

find_ref-left : (s : Text) → left (find_ref s) ≤ length s - 1
unfolding find_ref
find_ref-left [] = omega arith
find_ref-left (c ∷ s) = elim (Option-cases (ref_at (c ∷ s))) [
  | inl e ↦ rw (find_ref, e) (omega (arith, find_ref-left s, left-with_first c (find_ref s)))
  | inr (after, e) ↦ rw (find_ref, e) (omega (arith, ref_at-left c s after e))
]

prepend-IsEnded : (b : Text) (x : Loading Text) → IsEnded x → IsEnded (prepend b x)
prepend-IsEnded b (ok out unset) h = tt
prepend-IsEnded b (err e) h = h

missing-IsEnded :
    (env : Env) (var : Text) (x : Loading Text)
    → IsEnded x
    → IsEnded (elim env as (λ k. Loading Text) [ note ↦ x | require ↦ err (unset_variable var) ])
missing-IsEnded require var x h = tt
missing-IsEnded note var x h = h

module _ (env : Env) (vars : Text → Option Text) where
  loop-IsEnded :
      (n : ℕ) (s : Text) (u : List Text) → length s < n → IsEnded (expand_loop env vars n s u)
  unfolding expand_loop find_ref
  loop-IsEnded zero s u h = omega (arith, h)
  loop-IsEnded (suc n) [] u h = tt
  loop-IsEnded (suc n) (c ∷ s) u h = elim (Option-cases (find_ref (c ∷ s))) [
    | inl e ↦ rw (expand_loop, e) tt
    | inr ((before, after), e) ↦ elim (Option-cases (split_at b'}' after)) [
      | inl d ↦ rw (expand_loop, e, d) tt
      | inr ((var, rest), d) ↦
          let fewer : length rest < n =
            omega
              (arith, h, find_ref-left (c ∷ s), split_at-left b'}' after, ap left e, ap left d) in
          elim (Option-cases (vars var)) [
            | inr (val, m) ↦
                rw (expand_loop, e, d, m)
                  (prepend-IsEnded (before ++ val) _ (loop-IsEnded n rest u fewer))
            | inl m ↦
                rw (expand_loop, e, d, m)
                  (missing-IsEnded env var _ (
                    prepend-IsEnded (before ++ codes "${" ++ var ++ codes "}") _
                      (loop-IsEnded n rest (note_unset var u) fewer)))
          ]
    ]
  ]

  -- The expansion of every value ends within its fuel, with the value or with an error of the source's.
  pub expand_env_into-IsEnded : (s : Text) (u : List Text) → IsEnded (expand_env_into env vars s u)
  unfolding expand_env_into
  expand_env_into-IsEnded s u = loop-IsEnded (suc (length s)) s u (omega arith)
