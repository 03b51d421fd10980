-- ===== src/Credential/Live.antt =====
-- The identity in use after any number of reloads.
use mathlib.Core.Bool.{false≢true}
use tributary.Prelude.{
  ◌≡◌, ◌∙◌, refl, sym, ap, subst, true, false, List, [], ◌∷◌, Option, none, some, arith,
  text_eq_iff, Bool-cases, inl, inr, All,
}
use tributary.Credential.{
  Identity, Loaded, ok, err, Source, RotatingIdentity, CredentialToken, token_eq, is_seen, adopt,
  reload, begin,
}

-- The files as they are at the times of the reloads.
unfoldable pub reloads : List Source → RotatingIdentity → RotatingIdentity
unfolding reload
reloads [] r = r
reloads (src ∷ srcs) r = reloads srcs (reload src r).1

abbrev or_kept : Identity → Loaded → Identity
or_kept kept (ok identity) = identity
or_kept kept (err e) = kept

-- The last identity that could be loaded, whatever the tokens say.
abbrev pub last_good : Identity → List Source → Identity
last_good kept [] = kept
last_good kept (src ∷ srcs) = last_good (or_kept kept src.loaded) srcs

token_eq_sound : (s t : CredentialToken) → token_eq s t ≡ true → s ≡ t
token_eq_sound [] [] h = refl
token_eq_sound [] (y ∷ ys) h = absurd (false≢true h)
token_eq_sound (x ∷ xs) [] h = absurd (false≢true h)
token_eq_sound ((p, t) ∷ xs) ((q, u) ∷ ys) h = ground (arith, text_eq_iff p q, token_eq_sound xs ys)

module _ (issue : CredentialToken → Identity) where
  -- Files with one token hold one identity, if they hold one.
  abbrev pub Agrees : Option CredentialToken → Loaded → Type 0
  Agrees (some t) (ok identity) = identity ≡ issue t
  Agrees (some t) (err e) = Unit
  Agrees none loaded = Unit

  abbrev pub IsFaithful : Source → Type 0
  IsFaithful src = Agrees src.token src.loaded

  record IsLive (good : Identity) (r : RotatingIdentity) : Type 0 where
    sourced : r.has_source ≡ true
    live : r.current ≡ some good
    agrees : Agrees r.token (ok good)

  -- Files that were seen hold what is in use, if they can be loaded.
  seen-kept :
      (good : Identity) (token seen : Option CredentialToken) (loaded : Loaded)
      → is_seen token seen ≡ true
      → Agrees token loaded
      → Agrees seen (ok good)
      → or_kept good loaded ≡ good
  seen-kept good token seen (err e) h a b = refl
  seen-kept good none seen (ok identity) h a b = absurd (false≢true h)
  seen-kept good (some t) none (ok identity) h a b = absurd (false≢true h)
  seen-kept good (some t) (some u) (ok identity) h a b =
      a ∙ ap issue (sym (token_eq_sound u t h)) ∙ sym b

  adopt-IsLive :
      (good : Identity) (token : Option CredentialToken) (loaded : Loaded) (r : RotatingIdentity)
      → Agrees token loaded
      → IsLive good r
      → IsLive (or_kept good loaded) (adopt (record { token = token; loaded = loaded }) r).1
  unfolding adopt
  adopt-IsLive good token (ok identity) r a h = record {
    sourced = h.sourced;
    live = refl;
    agrees = a;
  }
  adopt-IsLive good token (err e) r a h = record {
    sourced = h.sourced;
    live = h.live;
    agrees = h.agrees;
  }

  reload-seen :
      (src : Source) (r : RotatingIdentity)
      → r.has_source ≡ true
      → is_seen src.token r.token ≡ true
      → (reload src r).1 ≡ r
  unfolding reload
  reload-seen src r h k = ground (arith, h, k)

  reload-new :
      (src : Source) (r : RotatingIdentity)
      → r.has_source ≡ true
      → is_seen src.token r.token ≡ false
      → (reload src r).1 ≡ (adopt src r).1
  unfolding reload
  reload-new src r h k = ground (arith, h, k)

  reload-IsLive :
      (good : Identity) (src : Source) (r : RotatingIdentity)
      → IsFaithful src
      → IsLive good r
      → IsLive (or_kept good src.loaded) (reload src r).1
  reload-IsLive good src r a h = elim (Bool-cases (is_seen src.token r.token)) [
    | inl seen ↦ subst (IsLive (or_kept good src.loaded)) (sym (reload-seen src r h.sourced seen)) (
        subst (λ g. IsLive g r) (sym (seen-kept good src.token r.token src.loaded seen a h.agrees))
          h)
    | inr new ↦
        subst (IsLive (or_kept good src.loaded)) (sym (reload-new src r h.sourced new))
          (adopt-IsLive good src.token src.loaded r a h)
  ]

  reloads-IsLive :
      (good : Identity) (srcs : List Source) (r : RotatingIdentity)
      → All IsFaithful srcs
      → IsLive good r
      → IsLive (last_good good srcs) (reloads srcs r)
  unfolding reloads
  reloads-IsLive good [] r a h = h
  reloads-IsLive good (src ∷ srcs) r a h =
      reloads-IsLive (or_kept good src.loaded) srcs (reload src r).1 a.1
        (reload-IsLive good src r a.0 h)

  -- After a first identity was loaded and any history of reloads, the identity in use is the last one
  -- that could be loaded: a renewal is not missed, and one that fails takes nothing away. The tokens
  -- are faithful: files with the same token hold the same identity, if they hold one.
  pub reloads-live :
      (token : Option CredentialToken) (identity : Identity) (srcs : List Source)
      → All IsFaithful (record { token = token; loaded = ok identity } ∷ srcs)
      → (r : RotatingIdentity) × (begin (record { token = token; loaded = ok identity }) ≡ some r)
        × ((reloads srcs r).current ≡ some (last_good identity srcs))
  reloads-live token identity srcs a =
      let r : RotatingIdentity = record {
        has_source = true;
        current = some identity;
        token = token;
        last_reload_ok = true;
        reloads_refused = 0;
      } in
      let h : IsLive identity r = record { sourced = refl; live = refl; agrees = a.0 } in
      (r, refl, (reloads-IsLive identity srcs r a.1 h).live)
