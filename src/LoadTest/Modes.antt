-- ===== src/LoadTest/Modes.antt =====
-- The choice of the test in `main` of example/caller/Zclient.cc, behind Init of
-- src/Zrpcapplication.cc.
use rpc_base_on_zookeeper.Base.{
  Bytes, text, bytes_eq, eq_of-bytes_eq, ℕ, ◌≡◌, refl, Bool-cases, inl, inr, Option, none, some,
  List, [], ◌∷◌, arith,
}
use rpc_base_on_zookeeper.Table.{Table}
use rpc_base_on_zookeeper.Application.{Opt, unknown_option, init, read_options, load_from}
use rpc_base_on_zookeeper.LoadTest.{integrated_mode, mode_of, test_mode}

-- What POSIX says of `getopt` for the options "i:": an argument in front that starts with two dashes
-- and goes on is a group of option letters, and its first letter, the second dash, is unknown.
pub record GetoptLaws (getopt : List Bytes → List Opt) : Type 0 where
  pub unknown :
      (command : Bytes) (c : ℕ) (s : Bytes) (args : List Bytes)
      → (os : List Opt) × (getopt (command ∷ (b'-' ∷ b'-' ∷ c ∷ s) ∷ args) ≡ unknown_option ∷ os)

module _ (getopt : List Bytes → List Opt) (laws : GetoptLaws getopt) (files : Bytes → Option Bytes)
    (m : Table Bytes) where
  init-unknown :
      (command : Bytes) (c : ℕ) (s : Bytes) (args : List Bytes)
      → init getopt files (command ∷ (b'-' ∷ b'-' ∷ c ∷ s) ∷ args) m ≡ none
  unfolding init read_options load_from
  init-unknown command c s args = let (os, e) = laws.unknown command c s args in rw e (ground arith)

  init-mode :
      (command arg : Bytes) (args : List Bytes) (m' : Table Bytes)
      → init getopt files (command ∷ arg ∷ args) m ≡ some m'
      → mode_of arg ≡ integrated_mode
  unfolding mode_of text
  init-mode command arg args m' started = elim (Bool-cases (bytes_eq arg (text "--cache"))) [
    | inl e ↦ absurd (exits b'c' (text "ache") (eq_of-bytes_eq _ _ e))
    | inr not_cache ↦ elim (Bool-cases (bytes_eq arg (text "--user"))) [
      | inl e ↦ absurd (exits b'u' (text "ser") (eq_of-bytes_eq _ _ e))
      | inr not_user ↦ rw (not_cache, not_user) refl
    ]
  ]
    where
      exits : (c : ℕ) (s : Bytes) → arg ≡ b'-' ∷ b'-' ∷ c ∷ s → ⊥
      exits c s e =
          let stopped : init getopt files (command ∷ arg ∷ args) m ≡ none =
            rw e (init-unknown command c s args) in
          ground (arith, started, stopped)

  -- A process that gets past Init runs the integrated test: Init takes "--cache" and "--user" for
  -- wrong options and ends the process.
  pub test_mode-integrated :
      (argv : List Bytes) (m' : Table Bytes)
      → init getopt files argv m ≡ some m'
      → test_mode argv ≡ integrated_mode
  unfolding test_mode
  test_mode-integrated [] m' started = refl
  test_mode-integrated (command ∷ []) m' started = refl
  test_mode-integrated (command ∷ arg ∷ args) m' started = init-mode command arg args m' started
