-- ===== src/Queue/Names.antt =====
-- The names of segments and of temporary files in crates/tributary/src/queue.rs.
use tributary.Prelude.{
  ℕ, ◌<◌, ◌^◌, ◌-◌, ◌≡◌, ◌≢◌, refl, ap, none, some, codes, arith, decimal, length,
  parse_u64-decimal, strip_suffix, strip_suffix-append, strip_suffix-other, strip_prefix, ◌++◌,
}
use tributary.Queue.{padded, segment_name, tmp_name, name_seq}

pub name_seq-segment_name : (n : ℕ) → n < 2 ^ 64 → name_seq (segment_name n) ≡ some n
unfolding name_seq segment_name padded
name_seq-segment_name n h =
    rw (strip_suffix-append (codes ".lp") (padded n), name_seq)
      (parse_u64-decimal (12 - length (decimal n)) n h)

name_seq-tmp_name : (n : ℕ) → name_seq (tmp_name n) ≡ none
unfolding name_seq tmp_name
name_seq-tmp_name n =
    let other : strip_suffix (codes ".lp") (padded n ++ codes ".tmp") ≡ none =
      strip_suffix-other (codes ".lp") (codes ".tmp") (padded n)
        (λ t. unfold strip_prefix in refl) in
    rw (other, name_seq)

pub segment_name-ne : (m n : ℕ) → m < 2 ^ 64 → n < 2 ^ 64 → m ≢ n → segment_name m ≢ segment_name n
segment_name-ne m n h k other e =
    ground (arith, name_seq-segment_name m h, name_seq-segment_name n k, ap name_seq e)

pub segment_name-ne-tmp_name : (m n : ℕ) → m < 2 ^ 64 → segment_name m ≢ tmp_name n
segment_name-ne-tmp_name m n h e =
    ground (arith, name_seq-segment_name m h, name_seq-tmp_name n, ap name_seq e)
