-- ===== src/K8s/Examples.antt =====
-- The name of a container's log.
use tributary.Prelude.{ℕ, zero, suc, ◌≡◌, refl, [], ◌∷◌, ◌++◌, some, Text, codes, arith}
use tributary.K8s.{all_hex, parse_cri_path, rsplit_hyphen, stream_label}
use tributary.K8s.Path.{parse_cri_path-parts}

abbrev digits : ℕ → Text
digits zero = []
digits (suc n) = b'f' ∷ digits n

abbrev id : Text
id = digits 64

test_hyphens : rsplit_hyphen (codes "istio-proxy-ab") ≡ some (codes "istio-proxy", codes "ab")
unfolding rsplit_hyphen
test_hyphens = refl

parse_cri_path-parts_example :
    (parse_cri_path (codes "/var/log/containers/p-1_ns_istio-proxy-" ++ (id ++ codes ".log"))
      ≡ some
          (record { pod = codes "p-1"; namespace = codes "ns"; container = codes "istio-proxy" }))
    × (stream_label (codes "/var/log/containers/p-1_ns_istio-proxy-" ++ (id ++ codes ".log"))
        ≡ some (codes "p-1_ns_istio-proxy"))
unfolding all_hex
parse_cri_path-parts_example =
    parse_cri_path-parts (codes "p-1") (codes "ns") (codes "istio-proxy") id
      (
        (refl, λ e. omega (arith, e)),
        ((refl, λ e. omega (arith, e)), ((refl, λ e. omega (arith, e)), tt)),
      )
      ((refl, λ e. omega (arith, e)), ((refl, λ e. omega (arith, e)), tt))
      (
        (refl, λ e. omega (arith, e)),
        (
          (refl, λ e. omega (arith, e)),
          (
            (refl, λ e. omega (arith, e)),
            (
              (refl, λ e. omega (arith, e)),
              (
                (refl, λ e. omega (arith, e)),
                (
                  (refl, λ e. omega (arith, e)),
                  (
                    (refl, λ e. omega (arith, e)),
                    (
                      (refl, λ e. omega (arith, e)),
                      (
                        (refl, λ e. omega (arith, e)),
                        ((refl, λ e. omega (arith, e)), ((refl, λ e. omega (arith, e)), tt)),
                      ),
                    ),
                  ),
                ),
              ),
            ),
          ),
        ),
      )
      (λ e. ground (arith, e)) (λ e. ground (arith, e)) (λ e. ground (arith, e)) refl refl
      (codes "/var/log/containers")
