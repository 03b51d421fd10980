-- ===== src/Config/Expand.antt =====
-- `expand_env_into` of crates/tributary/src/config.rs: `${VAR}` in the value of a tag.
use tributary.Prelude.{
  ℕ, zero, suc, List, [], ◌∷◌, ◌++◌, Option, none, some, Text, codes, ◌==◌, ◌&&◌, if◌then◌else◌,
  length,
}
use tributary.Reload.SourceSet.{has}

-- Whether a variable that is not set is an error, or is noted.
pub data Env : Type 0 where
  require note : Env

-- The errors, without their texts; `endless` is the model's own.
pub data ConfigError : Type 0 where
  unread unterminated endless nothing_to_do : ConfigError
  unset_variable : Text → ConfigError
  bad_interval no_collectors unknown_collector empty_command bad_exec_interval : ConfigError
  bad_exec_timeout bad_format no_listen no_table no_name : ConfigError
  not_built no_channel no_path not_alone shared_name half_identity identity_over_http : ConfigError
  owns_framing bad_resolution empty_filter zero_rate half_sample empty_redact bad_pattern :
      ConfigError

-- A value, with the variables that were noted up to it.
pub data Loading {ℓ} (A : Type ℓ) : Type ℓ where
  ok : A → List Text → Loading A
  err : ConfigError → Loading A

unfoldable pub chain {ℓ κ} :
    {A : Type ℓ} {B : Type κ} → Loading A → (A → List Text → Loading B) → Loading B
chain (ok a unset) f = f a unset
chain (err e) f = err e

abbrev pub with_first : ℕ → Option (Text × Text) → Option (Text × Text)
with_first c none = none
with_first c (some (t, u)) = some (c ∷ t, u)

-- What stands before the first byte of this kind, and what behind it.
unfoldable pub split_at : ℕ → Text → Option (Text × Text)
split_at b [] = none
split_at b (c ∷ s) = let rest = with_first c (split_at b s) in if c == b then some ([], s) else rest

-- What stands behind `${`, if the text begins with it.
unfoldable pub ref_at : Text → Option Text
ref_at [] = none
ref_at (c ∷ []) = none
ref_at (c ∷ d ∷ s) = if (c == b'$') && (d == b'{') then some s else none

-- What stands before the first `${`, and what behind it.
unfoldable pub find_ref : Text → Option (Text × Text)
unfolding ref_at
find_ref [] = none
find_ref (c ∷ s) =
    let rest = with_first c (find_ref s) in
    elim (ref_at (c ∷ s)) [ none ↦ rest | some after ↦ some ([], after) ]

unfoldable pub note_unset : Text → List Text → List Text
note_unset var unset = if has var unset then unset else unset ++ var ∷ []

abbrev pub prepend : Text → Loading Text → Loading Text
prepend before (ok out unset) = ok (before ++ out) unset
prepend before (err e) = err e

module _ (env : Env) (vars : Text → Option Text) where
  -- The loop, on fuel.
  unfoldable pub expand_loop : ℕ → Text → List Text → Loading Text
  unfolding find_ref split_at note_unset
  expand_loop zero s unset = err endless
  expand_loop (suc n) s unset = elim (find_ref s) [
    | none ↦ ok s unset
    | some (before, after) ↦ elim (split_at b'}' after) [
      | none ↦ err unterminated
      | some (var, rest) ↦ elim (vars var) [
        | some val ↦ prepend (before ++ val) (expand_loop n rest unset)
        | none ↦ elim env [
          | note ↦
              prepend (before ++ codes "${" ++ var ++ codes "}")
                (expand_loop n rest (note_unset var unset))
          | require ↦ err (unset_variable var)
        ]
      ]
    ]
  ]

  unfoldable pub expand_env_into : Text → List Text → Loading Text
  unfolding expand_loop
  expand_env_into s unset = expand_loop (suc (length s)) s unset
