-- ===== src/Engine/Status.antt =====
-- `Status` and `Result` of include/vaultkv/types.h.
use vault_vk.Common.{ℕ, Bool, true, false, Option, none, some, []}
use vault_vk.Text.{Text}

pub data StatusCode : Type 0 where
  code_ok code_not_found code_invalid_argument code_io_error code_corruption code_crypto_error :
      StatusCode
  code_no_quorum code_not_leader code_unsupported : StatusCode

pub record Status : Type 0 where
  pub code : StatusCode
  pub message : Text
  pub seq : ℕ

abbrev pub is_ok : Status → Bool
is_ok s = elim s.code [ code_ok ↦ true | _ ↦ false ]

abbrev pub success : ℕ → Status
success seq = record { code = code_ok; message = []; seq = seq }

abbrev pub failure : StatusCode → Text → Status
failure code message = record { code = code; message = message; seq = 0 }

pub record Result {ℓ} (A : Type ℓ) : Type ℓ where
  pub status : Status
  pub value : Option A

module _ {ℓ} {A : Type ℓ} where
  abbrev pub ok_of : A → ℕ → Result A
  ok_of a seq = record { status = success seq; value = some a }

  abbrev pub err : Status → Result A
  err s = record { status = s; value = none }
