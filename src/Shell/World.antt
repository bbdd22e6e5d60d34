-- ===== src/Shell/World.antt =====
-- What the commands of bin/sh act on: the process's environment and what was printed. The C library
-- and the system calls are parameters of the definitions that use them.
use ganos.Base.{ℕ, List, Option}

-- `home`, `path` and `environ` are what `getenv` and `environ` give; the lines printed to standard
-- output and to standard error are kept without their line feeds.
pub record World : Type 0 where
  pub cwd : List ℕ
  pub home : Option (List ℕ)
  pub path : Option (List ℕ)
  pub environ : List (List ℕ)
  pub printed : List (List ℕ)
  pub errors : List (List ℕ)

-- What `chdir` comes to: the new working directory, or the text of `strerror` for its error.
pub data ChdirResult : Type 0 where
  moves fails : List ℕ → ChdirResult

-- `chdir`, for an old working directory and a path.
abbrev pub Chdir : Type 0
Chdir = List ℕ → List ℕ → ChdirResult
