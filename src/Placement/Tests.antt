-- ===== src/Placement/Tests.antt =====
-- Witnesses for placement: two nodes in one region.
use solana_snake_arena.Base.{false}
use solana_snake_arena.Placement.{NodeCandidate, PlacementRequest}

abbrev calm : NodeCandidate
calm = record {
  node_id = "a";
  advertise_url = "ws://a";
  region = "eu";
  rooms = 1;
  players = 3;
  max_rooms = 10;
  saturation = 2000;
  updated_at = 900;
  draining = false;
}

abbrev busy : NodeCandidate
busy = record calm { node_id = "b"; advertise_url = "ws://b"; saturation = 6000 }

abbrev request : PlacementRequest
request = record { mode = "solo"; region = "eu"; player_id = "p" }
