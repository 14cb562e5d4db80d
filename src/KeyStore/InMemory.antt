-- ===== src/KeyStore/InMemory.antt =====
-- `InMemoryKeyStore` of packages/core/src/encryption/keystore.ts. Objects are copied when they are
-- stored and loaded: that a caller may go on changing the stored session is not modelled.
use mathlib.Core.Path.{fun_ext}
use winkd.Prelude.{ℕ, refl, ap, Option, none, some, [], Str, nat_eq, str_eq_instance}
use winkd.Prelude.Dict
use winkd.Prelude.Dict.{Dict}
use winkd.KeyTypes.{IdentityKeyPair, PreKey, SignedPreKey, RatchetSession}
use winkd.KeyStore.{KeyStore, view, IsKeyStore}

pub record InMemory : Type 0 where
  pub identity : Option IdentityKeyPair
  pub reg_id : Option ℕ
  pub pre_keys : Dict ℕ PreKey
  pub signed_pre_keys : Dict ℕ SignedPreKey
  pub sessions : Dict Str RatchetSession

abbrev pub empty : InMemory
empty = record {
  identity = none;
  reg_id = none;
  pre_keys = [];
  signed_pre_keys = [];
  sessions = [];
}

instance abbrev pub in_memory : KeyStore InMemory
in_memory = record {
  get_identity_key_pair = λ s. s.identity;
  save_identity_key_pair = λ pair s. record s { identity = some pair };
  get_local_registration_id = λ s. s.reg_id;
  save_local_registration_id = λ id s. record s { reg_id = some id };
  load_pre_key = λ id s. Dict.get id s.pre_keys;
  store_pre_key = λ key s. record s { pre_keys = Dict.put key.id key s.pre_keys };
  remove_pre_key = λ id s. record s { pre_keys = Dict.remove id s.pre_keys };
  load_signed_pre_key = λ id s. Dict.get id s.signed_pre_keys;
  store_signed_pre_key =
      λ key s. record s { signed_pre_keys = Dict.put key.id key s.signed_pre_keys };
  remove_signed_pre_key = λ id s. record s { signed_pre_keys = Dict.remove id s.signed_pre_keys };
  load_session = λ peer s. Dict.get peer s.sessions;
  store_session = λ peer session s. record s { sessions = Dict.put peer session s.sessions };
  delete_session = λ peer s. record s { sessions = Dict.remove peer s.sessions };
}

-- Every method of the in-memory store meets the contract of `KeyStore`: a write changes the one
-- entry that it names, and every other read is as before.
pub InMemory-IsKeyStore : IsKeyStore in_memory
InMemory-IsKeyStore = record {
  save_identity = λ p s. refl;
  save_registration = λ r s. refl;
  store_pre = λ k s.
      ap (λ f. record (view in_memory s) { pre_keys = f })
        (fun_ext λ j. Dict.get-put k.id j k s.pre_keys);
  remove_pre = λ id s.
      ap (λ f. record (view in_memory s) { pre_keys = f })
        (fun_ext λ j. Dict.get-remove id j s.pre_keys);
  store_signed = λ k s.
      ap (λ f. record (view in_memory s) { signed_pre_keys = f })
        (fun_ext λ j. Dict.get-put k.id j k s.signed_pre_keys);
  remove_signed = λ id s.
      ap (λ f. record (view in_memory s) { signed_pre_keys = f })
        (fun_ext λ j. Dict.get-remove id j s.signed_pre_keys);
  store_sess = λ p r s.
      ap (λ f. record (view in_memory s) { sessions = f })
        (fun_ext λ j. Dict.get-put p j r s.sessions);
  delete_sess = λ p s.
      ap (λ f. record (view in_memory s) { sessions = f })
        (fun_ext λ j. Dict.get-remove p j s.sessions);
}
