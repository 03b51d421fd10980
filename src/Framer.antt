-- ===== src/Framer.antt =====
-- crates/tributary/src/main.rs: `Framer`, which of the three ways to frame the lines of a source is
-- used, and the loop over `drain` with which `run_file_source` empties it at the end. `decode` and
-- `envelope` are the library's JSON, and the clock is an argument.
pub mod Emptied
mod Examples
use tributary.Prelude.{ℕ, zero, suc, Bool, List, [], ◌∷◌, Option, none, some, Text}
use tributary.Multiline
use tributary.Multiline.{Joiner}
use tributary.Cri
use tributary.Cri.{Reassembler, CriError}
use tributary.Docker
use tributary.Docker.{DockerError, Decoded}

pub data Framer : Type 0 where
  multiline : Joiner → Framer
  docker cri : Reassembler → Framer

-- The source has one type of error for both formats.
pub data FrameError : Type 0 where
  not_docker : DockerError → FrameError
  not_cri : CriError → FrameError

pub data Offered : Type 0 where
  taken : Option Text → Offered
  refused : FrameError → Offered

abbrev of_docker : Docker.Framed Text → Offered
of_docker (Docker.ok line) = taken line
of_docker (Docker.err e) = refused (not_docker e)

abbrev of_cri : Cri.Pushed Text → Offered
of_cri (Cri.ok line) = taken line
of_cri (Cri.err e) = refused (not_cri e)

unfoldable pub has_pending : Framer → Bool
unfolding Multiline.has_pending Cri.has_pending
has_pending (multiline j) = Multiline.has_pending j
has_pending (docker r) = Cri.has_pending r
has_pending (cri r) = Cri.has_pending r

unfoldable pub truncated : Framer → ℕ
truncated (multiline j) = j.truncated
truncated (docker r) = r.truncated
truncated (cri r) = r.truncated

module _ (envelope : Text → Text → Text → Text) where
  unfoldable pub push : (Text → Decoded) → ℕ → Text → Framer → Offered × Framer
  unfolding Multiline.push Docker.push Cri.push
  push decode now line (multiline j) =
      let (out, j') = Multiline.push now line j in (taken out, multiline j')
  push decode now line (docker r) =
      let (out, r') = Docker.push envelope decode now line r in (of_docker out, docker r')
  push decode now line (cri r) =
      let (out, r') = Cri.push envelope now line r in (of_cri out, cri r')

  unfoldable pub expire : ℕ → Framer → Option Text × Framer
  unfolding Multiline.expire Docker.expire Cri.expire
  expire now (multiline j) = let (out, j') = Multiline.expire now j in (out, multiline j')
  expire now (docker r) = let (out, r') = Docker.expire envelope now r in (out, docker r')
  expire now (cri r) = let (out, r') = Cri.expire envelope now r in (out, cri r')

  unfoldable pub drain : Framer → Option Text × Framer
  unfolding Multiline.drain Docker.drain Cri.drain
  drain (multiline j) = let (out, j') = Multiline.drain j in (out, multiline j')
  drain (docker r) = let (out, r') = Docker.drain envelope r in (out, docker r')
  drain (cri r) = let (out, r') = Cri.drain envelope r in (out, cri r')

  -- `while let Some(line) = framer.drain()`: the lines that the body is given, on fuel.
  unfoldable pub drain_all : ℕ → Framer → List Text × Framer
  unfolding drain
  drain_all zero f = ([], f)
  drain_all (suc n) f =
      let (out, f') = drain f in
      elim out [
        | none ↦ ([], f')
        | some line ↦ let (lines, f'') = drain_all n f' in (line ∷ lines, f'')
      ]
