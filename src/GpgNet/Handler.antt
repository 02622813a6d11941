-- ===== src/GpgNet/Handler.antt =====
-- `GPGNetConnectionHandler` of GPGNetServer.cpp: the reading side of one game connection.
use ice_adapter.Base.{Bytes, List, [], ◌∷◌, ◌++◌}
use ice_adapter.Json.{JsonLib}
use ice_adapter.GpgNet.Message.{Parsed, waiting, threw, stop, parse}

module _ (J : JsonLib) where
  -- `_onRead`: the list is what `Recv` returns, and an empty fragment (or the list's end) stands for
  -- a result that is not positive. The buffer of the result is `_currentMsg`; its messages are those
  -- emitted. An exception of `parse` leaves the loop.
  unfoldable pub on_read : Bytes → List Bytes → Parsed J
  on_read current [] = stop J current waiting
  on_read current ([] ∷ fragments) = stop J current waiting
  on_read current ((x ∷ xs) ∷ fragments) =
      let p = parse J (current ++ (x ∷ xs)) in
      let q = on_read p.buffer fragments in
      elim p.halt [ threw ↦ p | _ ↦ record q { delivered = p.delivered ++ q.delivered } ]
