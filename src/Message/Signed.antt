-- ===== src/Message/Signed.antt =====
-- What a successful check says, for the three signed messages.
use candy.Base.{ℕ, ◌+◌, ◌≤◌, ◌≡◌, ◌↔◌, sym, ap, ap₂, ◌∙◌, Bool, true, List, ◌++◌, length, arith}
use candy.Base.Buffer.{slice, put, same_iff, slice-put_self, slice-put_before, put-slice}
use candy.Message.Layout.{digest_length, auth_size, expt_tun_size, vmac_size}
use candy.Message.Hash.{
  auth_digest, update_auth, expt_tun_digest, update_expt_tun, vmac_digest, update_vmac, check_at,
  check_auth, check_expt_tun, check_vmac,
}

-- A check accepts just the buffers whose hash field holds the digest, leaves those as they are, and
-- accepts what the matching update returns.
pub record IsSound (at : ℕ) (digest update : List ℕ → List ℕ) (check : List ℕ → Bool × List ℕ)
    (b : List ℕ) : Type 0 where
  pub accepts_iff : ((check b).0 ≡ true) ↔ (slice at digest_length b ≡ digest b)
  pub accepted_same : (check b).0 ≡ true → (check b).1 ≡ b
  pub update_accepted : check (update b) ≡ (true, update b)

module _ (at : ℕ) (digest : List ℕ → List ℕ)
    (fixed : (v b : List ℕ) → digest (put at v b) ≡ digest b)
    (long : (b : List ℕ) → length (digest b) ≡ digest_length) (b : List ℕ)
    (room : at + digest_length ≤ length b) where
  abbrev renewed : List ℕ → List ℕ
  renewed c = put at (digest c) c

  written :
      (c : List ℕ) → at + digest_length ≤ length c → slice at digest_length (renewed c) ≡ digest c
  written c h =
      ap (λ n. slice at n (renewed c)) (sym (long c))
      ∙ slice-put_self at (digest c) c (omega (arith, long c))

  accepts : ((check_at at renewed b).0 ≡ true) ↔ (slice at digest_length b ≡ digest b)
  accepts =
      (λ h. (same_iff _ _).0 h ∙ written b room, λ e. (same_iff _ _).1 (e ∙ sym (written b room)))

  accepted : (check_at at renewed b).0 ≡ true → renewed b ≡ b
  accepted h = ap (λ v. put at v b) (sym (accepts.0 h)) ∙ put-slice at digest_length b

  renewed_twice : renewed (renewed b) ≡ renewed b
  renewed_twice =
      ap (λ v. put at v (renewed b)) (fixed (digest b) b ∙ sym (written b room))
      ∙ put-slice at digest_length (renewed b)

  renewed_accepted : check_at at renewed (renewed b) ≡ (true, renewed b)
  renewed_accepted =
      ap₂ (λ x y. (x, y)) ((same_iff _ _).1 (ap (slice at digest_length) (sym renewed_twice)))
        renewed_twice

  pub sound : IsSound at digest renewed (check_at at renewed) b
  sound = record {
    accepts_iff = accepts;
    accepted_same = accepted;
    update_accepted = renewed_accepted;
  }

module _ (sha256 : List ℕ → List ℕ) (password : List ℕ)
    (long : (m : List ℕ) → length (sha256 m) ≡ digest_length) (b : List ℕ) where
  -- Auth: with room for the struct, check accepts a buffer exactly when its hash field holds the
  -- SHA-256 of password, address and timestamp; an accepted buffer is unchanged, and what updateHash
  -- returns is accepted.
  pub check_auth-IsSound :
      auth_size ≤ length b
      → IsSound 13
          (auth_digest sha256 password)
          (update_auth sha256 password)
          (check_auth sha256 password)
          b
  unfolding check_auth
  check_auth-IsSound h =
      sound 13 (auth_digest sha256 password)
        (λ v c.
          ap (λ m. sha256 (password ++ m))
            (ap₂ ◌++◌ (slice-put_before 1 4 13 v c (omega arith))
              (slice-put_before 5 8 13 v c (omega arith))))
        (λ c. long _) b h

  -- ExptTun: with room for the struct, check accepts a buffer exactly when its hash field holds the
  -- SHA-256 of password and timestamp (the requested address is not hashed); an accepted buffer is
  -- unchanged, and what updateHash returns is accepted.
  pub check_expt_tun-IsSound :
      expt_tun_size ≤ length b
      → IsSound 41
          (expt_tun_digest sha256 password)
          (update_expt_tun sha256 password)
          (check_expt_tun sha256 password)
          b
  unfolding check_expt_tun
  check_expt_tun-IsSound h =
      sound 41 (expt_tun_digest sha256 password)
        (λ v c. ap (λ m. sha256 (password ++ m)) (slice-put_before 1 8 41 v c (omega arith)))
        (λ c. long _) b h

  -- VMac: with room for the struct, check accepts a buffer exactly when its hash field holds the
  -- SHA-256 of password, virtual MAC and timestamp; an accepted buffer is unchanged, and what
  -- updateHash returns is accepted.
  pub check_vmac-IsSound :
      vmac_size ≤ length b
      → IsSound 25
          (vmac_digest sha256 password)
          (update_vmac sha256 password)
          (check_vmac sha256 password)
          b
  unfolding check_vmac
  check_vmac-IsSound h =
      sound 25 (vmac_digest sha256 password)
        (λ v c.
          ap (λ m. sha256 (password ++ m))
            (ap₂ ◌++◌ (slice-put_before 1 16 25 v c (omega arith))
              (slice-put_before 17 8 25 v c (omega arith))))
        (λ c. long _) b h
