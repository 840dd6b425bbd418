-- ===== src/Hashlink.antt =====
-- The crate hashlink, as far as src/conv.rs and src/udp.rs use it: `LinkedHashMap`, a hash map that
-- keeps its entries in the order in which they were inserted. It is a parameter of the model.
use kcp_rs.Base.{◌≡◌, Option, none, some, List, [], ◌∷◌}

pub record LinkedHashMap (K V : Type 0) : Type 1 where
  pub Map : Type 0
  pub map_new : Map
  pub get : Map → K → Option V
  pub insert : Map → K → V → Map
  pub remove : Map → K → Map
  -- What the map is once a value has been written through `get_mut`.
  pub write : Map → K → V → Map
  pub entries : Map → List (K × V)
  pub pop_front : Map → Map

abbrev pub tail {ℓ} : {A : Type ℓ} → List A → List A
tail [] = []
tail (x ∷ xs) = xs

-- What the documentation of the crate says of them.
pub record MapLaws {K V : Type 0} (H : LinkedHashMap K V) : Type 0 where
  pub get_new : (k : K) → H.get H.map_new k ≡ none
  pub get_insert : (m : H.Map) (k : K) (v : V) → H.get (H.insert m k v) k ≡ some v
  pub get_insert_other :
      (m : H.Map) (k k' : K) (v : V) → ¬ (k' ≡ k) → H.get (H.insert m k v) k' ≡ H.get m k'
  pub get_remove : (m : H.Map) (k : K) → H.get (H.remove m k) k ≡ none
  pub get_remove_other : (m : H.Map) (k k' : K) → ¬ (k' ≡ k) → H.get (H.remove m k) k' ≡ H.get m k'
  pub get_write :
      (m : H.Map) (k : K) (v w : V) → H.get m k ≡ some w → H.get (H.write m k v) k ≡ some v
  pub get_write_other :
      (m : H.Map) (k k' : K) (v : V) → ¬ (k' ≡ k) → H.get (H.write m k v) k' ≡ H.get m k'
  pub entries_pop_front : (m : H.Map) → H.entries (H.pop_front m) ≡ tail (H.entries m)
