-- ===== src/Message/Hash.antt =====
-- updateHash and check of the three signed messages of candy/src/websocket/message.cc. SHA-256 is a
-- parameter. A buffer is the struct's bytes, and what follows them. The comparison of the
-- timestamp with the clock, which only writes a warning, is left out.
use candy.Base.{ℕ, List, ◌++◌, Bool}
use candy.Base.Buffer.{slice, put, same}
use candy.Message.Layout.{digest_length}

module _ (sha256 : List ℕ → List ℕ) (password : List ℕ) where
  -- The struct's hash field lies behind what is hashed.
  abbrev pub auth_digest : List ℕ → List ℕ
  auth_digest b = sha256 (password ++ (slice 1 4 b ++ slice 5 8 b))

  unfoldable pub update_auth : List ℕ → List ℕ
  update_auth b = put 13 (auth_digest b) b

  abbrev pub expt_tun_digest : List ℕ → List ℕ
  expt_tun_digest b = sha256 (password ++ slice 1 8 b)

  unfoldable pub update_expt_tun : List ℕ → List ℕ
  update_expt_tun b = put 41 (expt_tun_digest b) b

  abbrev pub vmac_digest : List ℕ → List ℕ
  vmac_digest b = sha256 (password ++ (slice 1 16 b ++ slice 17 8 b))

  unfoldable pub update_vmac : List ℕ → List ℕ
  update_vmac b = put 25 (vmac_digest b) b

-- A check recomputes the hash in place, so it returns the buffer too.
abbrev pub check_at : ℕ → (List ℕ → List ℕ) → List ℕ → Bool × List ℕ
check_at at update b =
    let b' = update b in (same (slice at digest_length b) (slice at digest_length b'), b')

module _ (sha256 : List ℕ → List ℕ) (password : List ℕ) where
  unfoldable pub check_auth : List ℕ → Bool × List ℕ
  unfolding update_auth
  check_auth b = check_at 13 (update_auth sha256 password) b

  unfoldable pub check_expt_tun : List ℕ → Bool × List ℕ
  unfolding update_expt_tun
  check_expt_tun b = check_at 41 (update_expt_tun sha256 password) b

  unfoldable pub check_vmac : List ℕ → Bool × List ℕ
  unfolding update_vmac
  check_vmac b = check_at 25 (update_vmac sha256 password) b
