-- ===== src/Example/Maps.antt =====
-- A hash map that keeps the order of insertion, as a lookup function beside the list of its entries;
-- and the theorems on the cache and the listener, at concrete inputs.
use kcp_rs.Base.{
  ℕ, ◌+◌, ◌≡◌, refl, Bool, true, false, Option, none, some, List, [], ◌∷◌, ◌++◌, Bytes, ◌==◌,
  ==_self, ==_ne, bytes_eq, bytes_eq_self, bytes_eq_sound, Bool-cases, inl, inr, replicate,
  if◌then◌else◌, arith,
}
use kcp_rs.Config.{KcpConfig, default, listener_conv_timeout}
use kcp_rs.Hashlink.{LinkedHashMap, MapLaws, tail}
use kcp_rs.Protocol.Conv.{is_valid_conv, rand_conv}
use kcp_rs.Protocol.Packet.{read_conv, read_payload_data}
use kcp_rs.Stream.Task.{strip_prefix}
use kcp_rs.ConvCache.{ConvCache, cache_new, cache_update, allocate_loop, allocate}
use kcp_rs.ConvCache.Laws.{fresh_from, cache_update-fresh_from, allocate-free}
use kcp_rs.Listener.{
  Tables, Listener, Session, SocketAddr, listener_new, session_of, with_session, new_session,
  get_session, accept_session, is_syn, find, find_by_conv, find_by_frame, find_by_id,
  read_session_id,
}
use kcp_rs.Listener.Agreement.{Consistent, TableLaws}
use kcp_rs.Listener.Reached.{
  Reachable, initially, later, packet_step, Reachable-Consistent, get_session-peer,
}

pub record Toy (K V : Type 0) : Type 0 where
  pub look : K → Option V
  pub order : List (K × V)

-- A test for equality of keys.
pub record Test (K : Type 0) : Type 0 where
  pub test : K → K → Bool
  pub test_self : (k : K) → test k k ≡ true
  pub test_other : (k k' : K) → ¬ (k ≡ k') → test k k' ≡ false

module _ {K V : Type 0} (D : Test K) where
  abbrev pub drop_key : List (K × V) → K → List (K × V)
  drop_key [] k = []
  drop_key (e ∷ es) k = if D.test e.0 k then drop_key es k else e ∷ drop_key es k

  abbrev put_key : List (K × V) → K → V → List (K × V)
  put_key [] k v = []
  put_key (e ∷ es) k v = (if D.test e.0 k then (k, v) else e) ∷ put_key es k v

  abbrev removed : Toy K V → K → Toy K V
  removed m k = record {
    look = λ k'. if D.test k' k then none else m.look k';
    order = drop_key m.order k;
  }

  abbrev put : Toy K V → K → V → K → Option V
  put m k v k' = if D.test k' k then some v else m.look k'

  abbrev pop : Toy K V → List (K × V) → Toy K V
  pop m [] = m
  pop m (e ∷ es) = record { look = (removed m e.0).look; order = es }

  abbrev pub toy_map : LinkedHashMap K V
  toy_map = record {
    Map = Toy K V;
    map_new = record { look = λ k. none; order = [] };
    get = λ m k. m.look k;
    insert = λ m k v. record { look = put m k v; order = drop_key m.order k ++ ((k, v) ∷ []) };
    remove = removed;
    write = λ m k v. record { look = put m k v; order = put_key m.order k v };
    entries = λ m. m.order;
    pop_front = λ m. pop m m.order;
  }

  pop-tail : (m : Toy K V) (es : List (K × V)) → m.order ≡ es → (pop m es).order ≡ tail es
  pop-tail m [] e = e
  pop-tail m (x ∷ es) e = refl

  pub toy_map-MapLaws : MapLaws toy_map
  toy_map-MapLaws = record {
    get_new = λ k. refl;
    get_insert = λ m k v. rw (D.test_self k) refl;
    get_insert_other = λ m k k' v ne. rw (D.test_other k' k ne) refl;
    get_remove = λ m k. rw (D.test_self k) refl;
    get_remove_other = λ m k k' ne. rw (D.test_other k' k ne) refl;
    get_write = λ m k v w e. rw (D.test_self k) refl;
    get_write_other = λ m k k' v ne. rw (D.test_other k' k ne) refl;
    entries_pop_front = λ m. pop-tail m m.order refl;
  }

abbrev pub numbers : Test ℕ
numbers = record { test = λ a b. a == b; test_self = ==_self; test_other = ==_ne }

pub bytes_eq_other : (a b : Bytes) → ¬ (a ≡ b) → bytes_eq a b ≡ false
bytes_eq_other a b ne = elim (Bool-cases (bytes_eq a b)) [
  | inl e ↦ absurd (ne (bytes_eq_sound a b e))
  | inr e ↦ e
]

abbrev pub strings : Test Bytes
strings = record { test = bytes_eq; test_self = bytes_eq_self; test_other = bytes_eq_other }

instance abbrev pub number_map : LinkedHashMap ℕ ℕ
number_map = toy_map numbers

instance abbrev pub tables : Tables
tables = record { convs = number_map; sessions = toy_map numbers; ids = toy_map strings }

-- Two old numbers and a young one, at the time 100 with the timeout 20.
abbrev cache : ConvCache
cache = record {
  map = record {
    look = λ c. if c == 9 then some 90 else none;
    order = (7, 10) ∷ (8, 20) ∷ (9, 90) ∷ [];
  };
  timeout = 20;
}

cache_update-fresh_from_example :
    (c' : ConvCache) × (cache_update 100 cache ≡ some c')
    × (c'.timeout ≡ 20)
    × (number_map.entries c'.map ≡ fresh_from 100 20 ((7, 10) ∷ (8, 20) ∷ (9, 90) ∷ []))
cache_update-fresh_from_example = cache_update-fresh_from (toy_map-MapLaws numbers) 100 cache

-- At the time 0 nothing is old. The draws are 0, 1, 2, …: 0 is not valid, 1 is in use.
allocate-free_example :
    (conv : ℕ) × (allocate (λ c. c == 1) (λ i. i) 5 0 cache ≡ some (cache, conv))
    × (is_valid_conv conv ≡ true)
    × ((conv == 1) ≡ false)
    × (number_map.get cache.map conv ≡ none)
unfolding cache_update is_valid_conv
allocate-free_example =
    allocate-free (λ c. c == 1) (λ i. i) 5 0 2 cache cache refl (omega arith) refl refl

pub toy_laws : TableLaws
toy_laws = record { session_laws = toy_map-MapLaws numbers; id_laws = toy_map-MapLaws strings }

abbrev pub keyed : KcpConfig
keyed = record default { session_key = 1 ∷ 2 ∷ []; session_id_len = 3 }

-- A SYN packet with the key and the id 7, 8, 9.
abbrev pub syn_packet : Bytes
syn_packet = 254 ∷ 255 ∷ 255 ∷ 255 ∷ 81 ∷ replicate 15 0 ++ (5 ∷ 0 ∷ 0 ∷ 0 ∷ 1 ∷ 2 ∷ 7 ∷ 8 ∷ 9 ∷ [])

abbrev pub peer : SocketAddr
peer = (127 ∷ 0 ∷ 0 ∷ 1 ∷ [], 4000)

abbrev pub first_session : Session
first_session = new_session 5 (7 ∷ 8 ∷ 9 ∷ []) peer

-- The listener that has taken the packet, under the number 5.
abbrev pub with_first : Listener
with_first =
    with_session (listener_new keyed) (cache_new ⦃H = number_map⦄ listener_conv_timeout)
      first_session

with_first_run :
    get_session (listener_new keyed) syn_packet peer true (λ i. i + 5) 3 0
    ≡ some (with_first, some first_session)
unfolding get_session find find_by_conv find_by_frame find_by_id accept_session is_syn
    read_session_id read_conv read_payload_data strip_prefix allocate allocate_loop cache_update
    cache_new rand_conv is_valid_conv listener_new
with_first_run = refl

with_first-Reachable : Reachable keyed with_first
with_first-Reachable = later (listener_new keyed) with_first initially (
    packet_step (listener_new keyed) with_first syn_packet peer true (λ i. i + 5) 3 0
      (some first_session) with_first_run)

Reachable-Consistent_example : Consistent with_first
Reachable-Consistent_example = Reachable-Consistent toy_laws keyed with_first with_first-Reachable

get_session-peer_example :
    (first_session.peer_addr ≡ peer)
    × (session_of with_first first_session.session_conv ≡ some first_session)
get_session-peer_example =
    get_session-peer toy_laws keyed (listener_new keyed) with_first syn_packet peer true
      (λ i. i + 5) 3 0 first_session initially with_first_run
