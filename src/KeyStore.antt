-- ===== src/KeyStore.antt =====
-- The interface `KeyStore` of packages/core/src/encryption/keystore.ts, and what it promises.
pub mod InMemory
pub mod IndexedDb
use winkd.Prelude.{ℕ, ◌≡◌, Option, none, some, Str, Eq, nat_eq, str_eq_instance, if◌then◌else◌}
use winkd.KeyTypes.{IdentityKeyPair, PreKey, SignedPreKey, RatchetSession}

-- The methods. Each promise is taken to be fulfilled: a failing database is not modelled.
pub record KeyStore (S : Type 0) : Type 0 where
  pub get_identity_key_pair : S → Option IdentityKeyPair
  pub save_identity_key_pair : IdentityKeyPair → S → S
  pub get_local_registration_id : S → Option ℕ
  pub save_local_registration_id : ℕ → S → S
  pub load_pre_key : ℕ → S → Option PreKey
  pub store_pre_key : PreKey → S → S
  pub remove_pre_key : ℕ → S → S
  pub load_signed_pre_key : ℕ → S → Option SignedPreKey
  pub store_signed_pre_key : SignedPreKey → S → S
  pub remove_signed_pre_key : ℕ → S → S
  pub load_session : Str → S → Option RatchetSession
  pub store_session : Str → RatchetSession → S → S
  pub delete_session : Str → S → S

-- What a client can read.
pub record KeyView : Type 0 where
  pub identity : Option IdentityKeyPair
  pub registration_id : Option ℕ
  pub pre_keys : ℕ → Option PreKey
  pub signed_pre_keys : ℕ → Option SignedPreKey
  pub sessions : Str → Option RatchetSession

abbrev pub view : {S : Type 0} → KeyStore S → S → KeyView
view ks s = record {
  identity = ks.get_identity_key_pair s;
  registration_id = ks.get_local_registration_id s;
  pre_keys = λ id. ks.load_pre_key id s;
  signed_pre_keys = λ id. ks.load_signed_pre_key id s;
  sessions = λ peer. ks.load_session peer s;
}

-- A map with one key written or cleared.
abbrev pub update {ℓ} : {K : Type 0} {V : Type ℓ} ⦃e : Eq K⦄ → K → V → (K → V) → K → V
update ⦃e⦄ k v f j = if e.beq k j then v else f j

-- Each method that writes changes one entry of what can be read, and nothing else.
pub record IsKeyStore {S : Type 0} (ks : KeyStore S) : Type 0 where
  pub save_identity :
      (p : IdentityKeyPair) (s : S)
      → view ks (ks.save_identity_key_pair p s) ≡ record (view ks s) { identity = some p }
  pub save_registration :
      (r : ℕ) (s : S)
      → view ks (ks.save_local_registration_id r s)
        ≡ record (view ks s) { registration_id = some r }
  pub store_pre :
      (k : PreKey) (s : S)
      → view ks (ks.store_pre_key k s)
        ≡ record (view ks s) { pre_keys = update k.id (some k) (view ks s).pre_keys }
  pub remove_pre :
      (id : ℕ) (s : S)
      → view ks (ks.remove_pre_key id s)
        ≡ record (view ks s) { pre_keys = update id none (view ks s).pre_keys }
  pub store_signed :
      (k : SignedPreKey) (s : S)
      → view ks (ks.store_signed_pre_key k s)
        ≡ record (view ks s) { signed_pre_keys = update k.id (some k) (view ks s).signed_pre_keys }
  pub remove_signed :
      (id : ℕ) (s : S)
      → view ks (ks.remove_signed_pre_key id s)
        ≡ record (view ks s) { signed_pre_keys = update id none (view ks s).signed_pre_keys }
  pub store_sess :
      (p : Str) (r : RatchetSession) (s : S)
      → view ks (ks.store_session p r s)
        ≡ record (view ks s) { sessions = update p (some r) (view ks s).sessions }
  pub delete_sess :
      (p : Str) (s : S)
      → view ks (ks.delete_session p s)
        ≡ record (view ks s) { sessions = update p none (view ks s).sessions }
