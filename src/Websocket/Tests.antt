-- ===== src/Websocket/Tests.antt =====
-- The hub on a few messages.
use wifigo.Base.{◌≡◌, none, List, [], ◌∷◌, ◌++◌}
use wifigo.Base.Lists.{lookup}
use wifigo.Websocket.Hub.{
  closed, register, send_to_ip, unregister, broadcast, Message, new_hub, run,
}
use wifigo.Websocket.Hub.Delivery.{connected, reconnect, run-connected, reconnect-lost}

abbrev session : List Message
session =
    register "10.5.50.2" 1
    ∷ register "10.5.50.3" 2
    ∷ send_to_ip "10.5.50.2" "paid"
    ∷ unregister "10.5.50.3"
    ∷ broadcast "bye"
    ∷ []

run-connected_example :
    lookup "10.5.50.2" (run session new_hub).clients ≡ connected "10.5.50.2" session none
unfolding lookup
run-connected_example = run-connected "10.5.50.2" session new_hub

reconnect-lost_example :
    (lookup "10.5.50.2" (run (reconnect "10.5.50.2" 1 2) new_hub).clients ≡ none)
    × ((run (reconnect "10.5.50.2" 1 2) new_hub).actions ≡ [] ++ closed 2 ∷ [])
reconnect-lost_example = reconnect-lost "10.5.50.2" 1 2 new_hub
