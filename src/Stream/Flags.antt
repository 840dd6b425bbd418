-- ===== src/Stream/Flags.antt =====
-- src/stream.rs: `Task::flags`, the set of the four bits CLIENT, FLUSH, FIN_RECVED, INPUT_CLOSED.
use kcp_rs.Base.{
  ℕ, ◌+◌, ◌≡◌, refl, Bool, true, false, not, ◌&&◌, arith, and_true, ==_iff, sym, ◌==◌,
  if◌then◌else◌, bit_and, bit_or, bit_xor,
}

pub record Flags : Type 0 where
  pub client : Bool
  pub flush : Bool
  pub fin_recved : Bool
  pub input_closed : Bool

abbrev pub no_flags : Flags
no_flags = record { client = false; flush = false; fin_recved = false; input_closed = false }

pub data Flag : Type 0 where
  client_flag flush_flag fin_recved_flag input_closed_flag : Flag

-- `self.flags & f != 0`.
unfoldable pub has : Flags → Flag → Bool
has s client_flag = s.client
has s flush_flag = s.flush
has s fin_recved_flag = s.fin_recved
has s input_closed_flag = s.input_closed

-- `self.flags |= f`.
unfoldable pub insert : Flags → Flag → Flags
insert s client_flag = record s { client = true }
insert s flush_flag = record s { flush = true }
insert s fin_recved_flag = record s { fin_recved = true }
insert s input_closed_flag = record s { input_closed = true }

-- `self.flags ^= f`.
unfoldable pub toggle : Flags → Flag → Flags
toggle s client_flag = record s { client = not s.client }
toggle s flush_flag = record s { flush = not s.flush }
toggle s fin_recved_flag = record s { fin_recved = not s.fin_recved }
toggle s input_closed_flag = record s { input_closed = not s.input_closed }

-- The constants, and the word that holds a set.
abbrev pub mask : Flag → ℕ
mask client_flag = 0x01
mask flush_flag = 0x02
mask fin_recved_flag = 0x04
mask input_closed_flag = 0x08

abbrev digit : Bool → ℕ → ℕ
digit b n = if b then n else 0

abbrev pub word : Flags → ℕ
word s = digit s.client 1 + digit s.flush 2 + digit s.fin_recved 4 + digit s.input_closed 8

abbrev same_bool : Bool → Bool → Bool
same_bool true b = b
same_bool false b = not b

same_bool_sound : (a b : Bool) → same_bool a b ≡ true → a ≡ b
same_bool_sound true b h = sym h
same_bool_sound false true h = cc
same_bool_sound false false h = refl

-- The three agreements as one test, so that they can be checked for every set.
abbrev agrees : Flag → Bool → Bool → Bool → Bool → Bool
agrees f a b c d =
    let s : Flags = record { client = a; flush = b; fin_recved = c; input_closed = d } in
    same_bool (has s f) (not (bit_and (word s) (mask f) == 0))
    && (word (insert s f) == bit_or (word s) (mask f))
    && (word (toggle s f) == bit_xor (word s) (mask f))

abbrev every : (Bool → Bool) → Bool
every p = p true && p false

every_sound : (p : Bool → Bool) (b : Bool) → every p ≡ true → p b ≡ true
every_sound p true h = ground arith
every_sound p false h = ground arith

table : (f : Flag) → every (λ a. every (λ b. every (λ c. every (agrees f a b c)))) ≡ true
unfolding has insert toggle
table client_flag = refl
table flush_flag = refl
table fin_recved_flag = refl
table input_closed_flag = refl

agrees-true : (f : Flag) (a b c d : Bool) → agrees f a b c d ≡ true
agrees-true f a b c d = every_sound (agrees f a b c) d (
    every_sound (λ c. every (agrees f a b c)) c
      (every_sound (λ b. every (λ c. every (agrees f a b c))) b
        (every_sound (λ a. every (λ b. every (λ c. every (agrees f a b c)))) a (table f))))

-- The set stands for the u32 of the code: on the word that holds it, testing, setting and toggling a
-- flag are `&`, `|` and `^` with the flag's constant.
word-Flags :
    (s : Flags) (f : Flag)
    → (has s f ≡ not (bit_and (word s) (mask f) == 0))
      × (word (insert s f) ≡ bit_or (word s) (mask f))
      × (word (toggle s f) ≡ bit_xor (word s) (mask f))
word-Flags s f =
    let h = and_true _ _ (agrees-true f s.client s.flush s.fin_recved s.input_closed) in
    let g = and_true _ _ h.0 in (same_bool_sound _ _ g.0, (==_iff _ _).0 g.1, (==_iff _ _).0 h.1)
