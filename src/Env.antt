-- ===== src/Env.antt =====
-- What the server calls and does not implement, as it answers during one event of the server's
-- single thread: the conversions of doubles, the bcrypt library, the
-- random numbers, the order that `std::sort` leaves among equal timestamps, and the clocks.
use lan_chat_next.Prelude.{ℕ, String, Option, List, ℤ}
use lan_chat_next.Records.{StoredMessage}

abbrev pub Bytes : Type 0
Bytes = List ℕ

pub record Env : Type 0 where
  -- `std::stod`, as the bits of the double; `none` where it throws
  pub stod : Bytes → Option ℕ
  -- `std::to_string` of a double
  pub show_double : ℕ → Bytes
  -- `crypt_gensalt_rn(prefix, cost, entropy, ...)` and `crypt_rn(key, setting, ...)` of the bcrypt
  -- library; `none` where they return a null pointer
  pub crypt_gensalt_rn : String → ℕ → Bytes → Option String
  pub crypt_rn : String → String → Option String
  -- the numbers that `std::mt19937` and `std::mt19937_64` draw, by their positions
  pub mt19937 : ℕ → ℕ
  pub mt19937_64 : ℕ → ℕ
  -- `std::sort` by `a.timestamp < b.timestamp`
  pub sort_by_timestamp : List StoredMessage → List StoredMessage
  -- `std::time(nullptr)`
  pub now : ℤ
  -- `std::chrono::steady_clock::now()`, in nanoseconds
  pub steady_now : ℕ
