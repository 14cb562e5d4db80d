-- ===== src/Tests/Crypto.antt =====
-- The encodings and the key agreement at concrete inputs.
use winkd.Prelude.{◌≡◌, true, some, [], ◌∷◌, arith, lit, length, ap}
use winkd.Codec.Hex.{Bytes}
use winkd.Codec.Base64.{buf_to_base64}
use winkd.Result.{ok}
use winkd.Crypto.X3dh.{x3dh, x3dh_respond}
use winkd.Crypto.X3dh.Agreement.{public_key, private_key, x3dh-agreement}
use winkd.Crypto.SafetyNumber.{Party, compute_safety_number}
use winkd.Crypto.SafetyNumber.Laws.{compute_safety_number_comm}
use winkd.KeyTypes.{SignedPreKey}
use winkd.Crypto.PreKeys.{generate_signed_pre_key_pair, verify_pre_key}
use winkd.Crypto.PreKeys.Signing.{generate_signed_pre_key_pair-verifies}
use winkd.Tests.Toy.{toy, toy_laws}

abbrev alice : Party
alice = record { winkd_id = lit "alice#0001"; identity_public = buf_to_base64 (4 ∷ 5 ∷ []) }

abbrev bob : Party
bob = record { winkd_id = lit "bob#0002"; identity_public = buf_to_base64 (6 ∷ 7 ∷ 8 ∷ []) }

compute_safety_number_comm_example :
    compute_safety_number alice bob ≡ compute_safety_number bob alice
compute_safety_number_comm_example =
    compute_safety_number_comm alice bob (λ e. omega (arith, ap length e))

x3dh-agreement_example :
    (secret : Bytes) × (x3dh
        (private_key 1)
        (private_key 2)
        (public_key 3)
        (public_key 4)
        (some (public_key 5))
      ≡ ok secret)
    × (x3dh_respond
          (private_key 3)
          (private_key 4)
          (some (private_key 5))
          (public_key 1)
          (public_key 2)
        ≡ ok secret)
x3dh-agreement_example = x3dh-agreement toy_laws 1 2 3 4 (some 5)

generate_signed_pre_key_pair-verifies_example :
    (k : SignedPreKey) × (generate_signed_pre_key_pair 9 7 (private_key 2) ≡ ok k)
    × (k.public_key ≡ public_key 9)
    × (verify_pre_key (public_key 2) k.public_key k.signature ≡ true)
generate_signed_pre_key_pair-verifies_example = generate_signed_pre_key_pair-verifies toy_laws 2 9 7
