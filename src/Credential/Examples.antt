-- ===== src/Credential/Examples.antt =====
-- A pair that is renewed: first by files that do not load, then by good ones.
use tributary.Prelude.{
  ℕ, zero, suc, ◌≡◌, refl, List, [], ◌∷◌, Option, none, some, Text, codes, true, strip_suffix,
}
use tributary.Prelude.Int.{pos}
use tributary.Credential.{
  Identity, ok, err, no_key, Source, RotatingIdentity, CredentialToken, begin, load_pair,
  check_leaf, Library, expired,
}
use tributary.Credential.Live.{last_good, reloads, reloads-live}

abbrev identity : Text → Identity
identity pem = record { pem = pem; not_after_epoch = pos 9; common_name = none }

abbrev token : ℕ → Option CredentialToken
token n = some ((codes "cert", n) ∷ (codes "key", n) ∷ [])

abbrev renewals : List Source
renewals =
    record { token = token 1; loaded = ok (identity (codes "A")) }
    ∷ record { token = token 2; loaded = err no_key }
    ∷ record { token = token 3; loaded = ok (identity (codes "B")) }
    ∷ []

-- What the files hold, by the first time of their token.
abbrev issue : CredentialToken → Identity
issue [] = identity []
issue ((path, suc zero) ∷ more) = identity (codes "A")
issue ((path, n) ∷ more) = identity (codes "B")

-- A library with no chain to follow: a certificate is a text, valid until 9.
abbrev library : Library Text Text
library = record {
  certs = λ pem. some (pem ∷ []);
  private_key = λ pem. some (some pem);
  parse = λ cert. some (pos 9, none);
  builds = λ pem. true;
}

test_expired :
    load_pair library (pos 9) (some (codes "A")) (some (codes "K")) ≡ err (expired (pos 9))
unfolding load_pair check_leaf strip_suffix
test_expired = refl

reloads-live_example :
    (r : RotatingIdentity) × (begin (record { token = token 1; loaded = ok (identity (codes "A")) })
      ≡ some r)
    × ((reloads renewals r).current ≡ some (last_good (identity (codes "A")) renewals))
reloads-live_example =
    reloads-live issue (token 1) (identity (codes "A")) renewals (refl, (refl, (tt, (refl, tt))))
