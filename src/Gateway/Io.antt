-- ===== src/Gateway/Io.antt =====
-- Socket.IO's rooms. The server is a third party: it is a parameter with the documented laws of
-- joining, leaving, disconnecting and emitting to a room. `in_rooms` shows that they can hold.
use agrocylo_pip.Prelude.{
  Bool, List, String, [], if◌then◌else◌, not, str_eq, suc, ℕ, ◌&&◌, ◌||◌, ◌∷◌, ◌≡◌,
}

-- How often a text stands in a list
abbrev pub occurrences : String → List String → ℕ
occurrences k [] = 0
occurrences k (j ∷ js) = if str_eq j k then suc (occurrences k js) else occurrences k js

pub record Io : Type 1 where
  pub State : Type 0
  pub is_in : State → (socket room : String) → Bool
  -- A new connection, which is in the room of its own id
  pub connect : String → State → State
  pub join : (socket room : String) → State → State
  pub leave : (socket room : String) → State → State
  pub disconnect : String → State → State
  -- The sockets that an emission to a room is sent to
  pub recipients : State → String → List String
  pub is_in-connect :
      (k : String) (s : State) (j r : String)
      → is_in (connect k s) j r ≡ (is_in s j r || str_eq k j && str_eq k r)
  pub is_in-join :
      (k q : String) (s : State) (j r : String)
      → is_in (join k q s) j r ≡ (is_in s j r || str_eq k j && str_eq q r)
  pub is_in-leave :
      (k q : String) (s : State) (j r : String)
      → is_in (leave k q s) j r ≡ (is_in s j r && not (str_eq k j && str_eq q r))
  pub is_in-disconnect :
      (k : String) (s : State) (j r : String)
      → is_in (disconnect k s) j r ≡ (is_in s j r && not (str_eq k j))
  pub recipients_once :
      (s : State) (r j : String) → occurrences j (recipients s r) ≡ (if is_in s j r then 1 else 0)
