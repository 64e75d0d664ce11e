-- ===== src/Client/SocketIo.antt =====
-- The package socket.io-client: a parameter. What it documents of a socket: an emission while the
-- socket is connected reaches the server, in order; one while it is not is buffered, and the buffer is
-- sent on the next connection before the listeners of `connect` run. A connection begins afresh.
use agrocylo_pip.Prelude.{Bool, List, String, [], false, true, ◌++◌, ◌∷◌, ◌≡◌}

-- An emission: SUBSCRIBE_CAMPAIGN or UNSUBSCRIBE_CAMPAIGN with a campaign's id
pub data Message : Type 0 where
  subscribe_campaign : String → Message
  unsubscribe_campaign : String → Message

-- `received` is what the server has got over the present connection.
pub record SocketIo : Type 1 where
  pub Socket : Type 0
  pub io : String → Socket
  pub connected : Socket → Bool
  pub emit : Message → Socket → Socket
  pub connect : Socket → Socket
  pub disconnect : Socket → Socket
  pub received : Socket → List Message
  pub buffered : Socket → List Message
  pub io-connected : (url : String) → connected (io url) ≡ false
  pub io-buffered : (url : String) → buffered (io url) ≡ []
  pub emit-connected : (m : Message) (s : Socket) → connected (emit m s) ≡ connected s
  pub emit-received :
      (m : Message) (s : Socket) → connected s ≡ true → received (emit m s) ≡ received s ++ (m ∷ [])
  pub emit-buffered :
      (m : Message) (s : Socket)
      → connected s ≡ false
      → buffered (emit m s) ≡ buffered s ++ (m ∷ [])
  pub connect-connected : (s : Socket) → connected (connect s) ≡ true
  pub connect-received : (s : Socket) → connected s ≡ false → received (connect s) ≡ buffered s
  pub disconnect-connected : (s : Socket) → connected (disconnect s) ≡ false
  pub disconnect-buffered : (s : Socket) → connected s ≡ true → buffered (disconnect s) ≡ []
