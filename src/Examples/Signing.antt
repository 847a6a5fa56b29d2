-- ===== src/Examples/Signing.antt =====
-- The signed messages at concrete inputs: a hash that is all zeros, as long as SHA-256's.
use candy.Base.{ℕ, refl, List, [], ◌∷◌, arith}
use candy.Base.{replicate}
use candy.Message.Hash.{auth_digest, update_auth, check_auth}
use candy.Message.Signed.{IsSound, check_auth-IsSound}
use candy.Examples.Data.{zeros}

abbrev password : List ℕ
password = 112 ∷ 119 ∷ []

check_auth-IsSound_example :
    IsSound 13
      (auth_digest zeros password)
      (update_auth zeros password)
      (check_auth zeros password)
      (replicate 45 7)
check_auth-IsSound_example =
    check_auth-IsSound zeros password (λ m. refl) (replicate 45 7) (omega arith)
