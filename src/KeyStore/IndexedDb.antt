-- ===== src/KeyStore/IndexedDb.antt =====
-- `IndexedDbKeyStore` of packages/core/src/encryption/keystore.ts, over the object stores of its
-- database. Requests to the database succeed.
use mathlib.Core.Path.{fun_ext}
use winkd.Prelude.{
  ℕ, ◌≡◌, ◌↔◌, ◌∙◌, refl, ap, Bool, true, false, ◌&&◌, Option, none, some, Str, lit, Eq, ◌==◌,
  str_eq, str_eq_iff, nat_eq, str_eq_instance, arith, if◌then◌else◌,
}
use winkd.Prelude.Dict
use winkd.Prelude.Dict.{Dict}
use winkd.KeyTypes.{IdentityKeyPair, PreKey, SignedPreKey, RatchetSession}
use winkd.KeyStore.{KeyStore, KeyView, view, IsKeyStore}

-- The object stores that `onupgradeneeded` creates.
pub data StoreName : Type 0 where
  identity_keys registration_id pre_keys signed_pre_keys sessions : StoreName

pub data DbKey : Type 0 where
  text : Str → DbKey
  number : ℕ → DbKey

pub data Value : Type 0 where
  identity : IdentityKeyPair → Value
  registration : ℕ → Value
  pre_key : PreKey → Value
  signed_pre_key : SignedPreKey → Value
  session : RatchetSession → Value

abbrev same_store : StoreName → StoreName → Bool
same_store identity_keys identity_keys = true
same_store registration_id registration_id = true
same_store pre_keys pre_keys = true
same_store signed_pre_keys signed_pre_keys = true
same_store sessions sessions = true
same_store _ _ = false

abbrev same_key : DbKey → DbKey → Bool
same_key (text a) (text b) = str_eq a b
same_key (number a) (number b) = a == b
same_key _ _ = false

same_store_iff : (a b : StoreName) → (same_store a b ≡ true) ↔ (a ≡ b)
same_store_iff a b = (λ h. ground arith, λ h. ground arith)

same_key_iff : (a b : DbKey) → (same_key a b ≡ true) ↔ (a ≡ b)
same_key_iff (text a) (text b) =
    (λ h. ground (arith, str_eq_iff a b), λ h. ground (arith, str_eq_iff a b))
same_key_iff (number a) (number b) = (λ h. ground arith, λ h. ground arith)
same_key_iff (text a) (number b) = (λ h. cc, λ h. cc)
same_key_iff (number a) (text b) = (λ h. cc, λ h. cc)

abbrev pub Place : Type 0
Place = StoreName × DbKey

abbrev same_place : Place → Place → Bool
same_place (a, k) (b, l) = same_store a b && same_key k l

same_place_iff : (p q : Place) → (same_place p q ≡ true) ↔ (p ≡ q)
same_place_iff (a, k) (b, l) = (
  λ h. ground (arith, same_store_iff a b, same_key_iff k l),
  λ h. ground (arith, same_store_iff a b, same_key_iff k l),
)

instance abbrev place_eq : Eq Place
place_eq = record { beq = same_place; beq_iff = same_place_iff }

abbrev pub Database : Type 0
Database = Dict Place Value

unfoldable pub idb_get : StoreName → DbKey → Database → Option Value
idb_get store key db = Dict.get (store, key) db

unfoldable pub idb_put : StoreName → DbKey → Value → Database → Database
idb_put store key value db = Dict.put (store, key) value db

unfoldable pub idb_delete : StoreName → DbKey → Database → Database
idb_delete store key db = Dict.remove (store, key) db

-- The casts of `idbGet<T>`.
as_identity : Option Value → Option IdentityKeyPair
as_identity (some (identity pair)) = some pair
as_identity _ = none

as_registration : Option Value → Option ℕ
as_registration (some (registration id)) = some id
as_registration _ = none

as_pre_key : Option Value → Option PreKey
as_pre_key (some (pre_key key)) = some key
as_pre_key _ = none

as_signed_pre_key : Option Value → Option SignedPreKey
as_signed_pre_key (some (signed_pre_key key)) = some key
as_signed_pre_key _ = none

as_session : Option Value → Option RatchetSession
as_session (some (session s)) = some s
as_session _ = none

instance abbrev pub indexed_db : KeyStore Database
unfolding as_identity as_registration as_pre_key as_signed_pre_key as_session idb_get idb_put
    idb_delete
indexed_db = record {
  get_identity_key_pair = λ db. as_identity (idb_get identity_keys (text (lit "ik")) db);
  save_identity_key_pair = λ pair db. idb_put identity_keys (text (lit "ik")) (identity pair) db;
  get_local_registration_id = λ db. as_registration (idb_get registration_id (text (lit "rid")) db);
  save_local_registration_id =
      λ id db. idb_put registration_id (text (lit "rid")) (registration id) db;
  load_pre_key = λ id db. as_pre_key (idb_get pre_keys (number id) db);
  store_pre_key = λ key db. idb_put pre_keys (number key.id) (pre_key key) db;
  remove_pre_key = λ id db. idb_delete pre_keys (number id) db;
  load_signed_pre_key = λ id db. as_signed_pre_key (idb_get signed_pre_keys (number id) db);
  store_signed_pre_key = λ key db. idb_put signed_pre_keys (number key.id) (signed_pre_key key) db;
  remove_signed_pre_key = λ id db. idb_delete signed_pre_keys (number id) db;
  load_session = λ peer db. as_session (idb_get sessions (text peer) db);
  store_session = λ peer s db. idb_put sessions (text peer) (session s) db;
  delete_session = λ peer db. idb_delete sessions (text peer) db;
}

-- The view of a database, through what its places hold.
view_of : (Place → Option Value) → KeyView
view_of r = record {
  identity = as_identity (r (identity_keys, text (lit "ik")));
  registration_id = as_registration (r (registration_id, text (lit "rid")));
  pre_keys = λ id. as_pre_key (r (pre_keys, number id));
  signed_pre_keys = λ id. as_signed_pre_key (r (signed_pre_keys, number id));
  sessions = λ peer. as_session (r (sessions, text peer));
}

cast_if :
    {A : Type 0} (cast : Option Value → Option A) (b : Bool) (v w : Option Value)
    → cast (if b then v else w) ≡ (if b then cast v else cast w)
cast_if cast true v w = refl
cast_if cast false v w = refl

after_put :
    (store : StoreName) (key : DbKey) (v : Value) (db : Database)
    → view indexed_db (idb_put store key v db)
      ≡ view_of (λ p. if same_place (store, key) p then some v else Dict.get p db)
unfolding indexed_db view_of
after_put store key v db = ap view_of (fun_ext λ p. Dict.get-put (store, key) p v db)

after_delete :
    (store : StoreName) (key : DbKey) (db : Database)
    → view indexed_db (idb_delete store key db)
      ≡ view_of (λ p. if same_place (store, key) p then none else Dict.get p db)
unfolding indexed_db view_of
after_delete store key db = ap view_of (fun_ext λ p. Dict.get-remove (store, key) p db)

-- Every method of the IndexedDB store meets the contract of `KeyStore`: a write changes the one
-- entry that it names, and every other read is as before.
pub IndexedDb-IsKeyStore : IsKeyStore indexed_db
unfolding indexed_db view_of str_eq
IndexedDb-IsKeyStore = record {
  save_identity = λ p db. after_put identity_keys (text (lit "ik")) (identity p) db;
  save_registration = λ r db. after_put registration_id (text (lit "rid")) (registration r) db;
  store_pre = λ k db.
      after_put pre_keys (number k.id) (pre_key k) db
      ∙ ap (λ f. record (view indexed_db db) { pre_keys = f })
          (fun_ext λ j. cast_if as_pre_key (k.id == j) (some (pre_key k)) _);
  remove_pre = λ id db.
      after_delete pre_keys (number id) db
      ∙ ap (λ f. record (view indexed_db db) { pre_keys = f })
          (fun_ext λ j. cast_if as_pre_key (id == j) none _);
  store_signed = λ k db.
      after_put signed_pre_keys (number k.id) (signed_pre_key k) db
      ∙ ap (λ f. record (view indexed_db db) { signed_pre_keys = f })
          (fun_ext λ j. cast_if as_signed_pre_key (k.id == j) (some (signed_pre_key k)) _);
  remove_signed = λ id db.
      after_delete signed_pre_keys (number id) db
      ∙ ap (λ f. record (view indexed_db db) { signed_pre_keys = f })
          (fun_ext λ j. cast_if as_signed_pre_key (id == j) none _);
  store_sess = λ p s db.
      after_put sessions (text p) (session s) db
      ∙ ap (λ f. record (view indexed_db db) { sessions = f })
          (fun_ext λ j. cast_if as_session (str_eq p j) (some (session s)) _);
  delete_sess = λ p db.
      after_delete sessions (text p) db
      ∙ ap (λ f. record (view indexed_db db) { sessions = f })
          (fun_ext λ j. cast_if as_session (str_eq p j) none _);
}
