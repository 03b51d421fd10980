-- ===== src/Glob/Examples.antt =====
-- Names of a directory of container logs.
use tributary.Prelude.{◌≡◌, refl, arith, [], ◌∷◌, some, codes, strip_suffix, strip_prefix, false}
use tributary.Prelude.Sort.{sort_by}
use tributary.Queue.{name_le}
use tributary.Glob.{
  is_glob, has_wildcard, split, split_last, same, scan, only_stars, wildcard, kept, matches,
  stream_id,
}
use tributary.Glob.Match.{is_match}
use tributary.Glob.Matched.{wildcard-match}

test_matches :
    matches (λ dir. some (codes "b.log" ∷ codes "a.txt" ∷ codes "a.log" ∷ [])) (codes "/v/*.log")
    ≡ codes "/v/a.log" ∷ codes "/v/b.log" ∷ []
unfolding matches split split_last kept wildcard scan same only_stars sort_by name_le
test_matches = refl

test_is_glob : is_glob (codes "/v*/a.log") ≡ false
unfolding is_glob split_last has_wildcard
test_is_glob = refl

-- Two files of one directory, and one stream.
test_stream_id : stream_id (codes "k8s") (codes "a.log") ≡ stream_id (codes "k8s") (codes "a")
unfolding stream_id strip_suffix strip_prefix
test_stream_id = refl

wildcard-match_example :
    wildcard (codes "p*_c-?.log") (codes "pod_ns_c-7.log")
    ≡ some (is_match (codes "p*_c-?.log") (codes "pod_ns_c-7.log"))
wildcard-match_example = wildcard-match (codes "p*_c-?.log") (codes "pod_ns_c-7.log") (ground arith)
