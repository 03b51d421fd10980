-- ===== src/Tail/Examples.antt =====
-- Runs of the tailer on a directory where the log was renamed and made anew.
use tributary.Prelude.{◌≡◌, refl, true, [], ◌∷◌, some, Text, codes, arith, lookup, text_has_eq}
use tributary.Tail.{
  Fs, Open, Tailer, next_line, contents, chomp, check_rotation, rotate, size, open_at, keep_old,
  reopen, node_has_eq,
}
use tributary.Tail.Lines.{whole}
use tributary.Tail.Follow.{upcoming}
use tributary.Tail.Coming.{coming}
use tributary.Tail.Next.{Brings, next_line-Brings}
use tributary.Tail.Resume.{marks, resume, find_inode, sibling_paths, siblings}
use tributary.Tail.Marks.{resume-marks}

abbrev path : Text
path = codes "app.log"

abbrev fs : Fs
fs = record {
  names = (codes "app.log.1", (1, 2)) ∷ (path, (1, 3)) ∷ [];
  bytes = ((1, 2), codes "a\nb\nc") ∷ ((1, 3), codes "d\n") ∷ [];
  opens = λ p. true;
}

abbrev old_file : Open
old_file = record { dev = 1; ino = 2; path = path; offset = 2 }

abbrev tailer : Tailer
tailer = record {
  path = path;
  draining = [];
  current = some old_file;
  files_lost = 0;
  rotations = 0;
}

test_upcoming : upcoming fs tailer ≡ codes "b" ∷ codes "d" ∷ []
unfolding upcoming whole contents chomp check_rotation rotate size reopen open_at keep_old lookup
test_upcoming = refl

test_coming : coming fs tailer ≡ codes "b" ∷ codes "d" ∷ []
unfolding whole contents chomp size lookup
test_coming = refl

next_line-Brings_example : Brings fs (coming fs tailer) (next_line fs tailer)
next_line-Brings_example = next_line-Brings fs tailer

resume-marks_example :
    (t' : Tailer) × (resume fs path (marks tailer) ≡ some t')
    × (upcoming fs t' ≡ upcoming fs tailer)
resume-marks_example =
    resume-marks fs tailer old_file refl refl (unfold size contents lookup in omega arith) refl
      (1, 3) (codes "app.log.1") (unfold lookup in refl)
      (unfold find_inode sibling_paths siblings lookup in refl) refl
