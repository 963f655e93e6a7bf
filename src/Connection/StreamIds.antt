-- ===== src/Connection/StreamIds.antt =====
-- The stream identifiers that a connection hands out.
use hmmp_python_sdk.Base.{ℕ, zero, suc, ◌+◌, ◌%◌, ◌≤◌, ◌≡◌, refl, ◌∙◌, arith}
use hmmp_python_sdk.Connection.Stream.{Connection, max_stream_id, next_stream_id}

-- The counter after so many requests.
unfoldable pub after : ℕ → Connection → Connection
after zero c = c
after (suc n) c = (next_stream_id (after n c)).0

next_of :
    (n : ℕ) (c : Connection)
    → c.stream_id_counter ≡ n % max_stream_id + 1
    → (next_stream_id c).1 ≡ suc n % max_stream_id + 1
unfolding next_stream_id
next_of n c h = ground arith

first_number : (c : Connection) → c.stream_id_counter ≡ 0 → (next_stream_id (after zero c)).1 ≡ 1
unfolding after next_stream_id
first_number c h = ground arith

counter_of :
    (n : ℕ) (c : Connection) → (after (suc n) c).stream_id_counter ≡ (next_stream_id (after n c)).1
unfolding after next_stream_id
counter_of n c = refl

number_of :
    (n : ℕ) (c : Connection)
    → c.stream_id_counter ≡ 0
    → (next_stream_id (after n c)).1 ≡ n % max_stream_id + 1
number_of zero c h = first_number c h
number_of (suc n) c h = next_of n (after (suc n) c) (counter_of n c ∙ number_of n c h)

-- The identifier of the n-th request of a new connection is its number, counted on from 1 after
-- 2^31 - 1: never 0, which is for notifications, and never more than 31 bits.
pub stream_id_eq :
    (n : ℕ) (c : Connection)
    → c.stream_id_counter ≡ 0
    → ((next_stream_id (after n c)).1 ≡ n % max_stream_id + 1)
      × (1 ≤ (next_stream_id (after n c)).1)
      × ((next_stream_id (after n c)).1 ≤ max_stream_id)
stream_id_eq n c h = let e = number_of n c h in omega arith
