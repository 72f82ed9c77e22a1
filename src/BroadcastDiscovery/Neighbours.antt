-- ===== src/BroadcastDiscovery/Neighbours.antt =====
-- Two instances of examples/broadcast_discovery.rs on one network.
use pmd.Prelude.{
  ℕ, zero, suc, ◌<◌, ◌≤◌, ◌^◌, String, ◌≡◌, refl, ◌∙◌, ap, Bool, true, false, some, List, [], ◌∷◌,
  ◌++◌, length, map, take, ◌==◌, ◌^^◌, if◌then◌else◌,
}
use pmd.Prelude.Decimal.{show_ℕ}
use pmd.Prelude.Parse.{parse_u16-show_ℕ}
use pmd.Membership.{◌>>=◌}
use pmd.Platform.{Platform}
use pmd.Discovery.Broadcast.{BeaconCodec, Session, Turn, start}
use pmd.Discovery.Broadcast.Air.{Air, start-Air}
use pmd.BroadcastDiscovery.{
  parse_port, listen_addr, context, banner, announce, print_loop, discovered, ctrl_c, main,
}

-- `--port` with the print of a port.
parse_port-show_ℕ :
    (program : String) (port : ℕ) (rest : List String)
    → (program == "--port") ≡ false
    → port < 2 ^ 16
    → parse_port (program ∷ "--port" ∷ show_ℕ port ∷ rest) ≡ some port
unfolding parse_port
parse_port-show_ℕ program port rest ne small = rw (ne) (parse_u16-show_ℕ port small)

module _ (P : Platform) (codec : BeaconCodec P) where
  -- The lines for the peers that were discovered.
  abbrev pub line : P.Addr → String
  line a = "  >>> Discovered peer at " ^^ P.addr_to_string a

  announce-Air :
      (id : String) (b : P.Addr) (turns : List Turn) (taken : ℕ) (s : Session P)
      (found : List P.Addr)
      → start P codec true (context P id b) turns ≡ some s
      → s.discovered_tx ≡ found
      → announce P codec id true turns taken b
        ≡ banner P id b ++ print_loop P (map discovered (take taken found) ++ ctrl_c ∷ [])
  unfolding announce
  announce-Air id b turns taken s found started e = rw (started, e)

  main-args :
      (args : List String) (id : String) (turns : List Turn) (taken port : ℕ) (b : P.Addr)
      → parse_port args ≡ some port
      → listen_addr P port ≡ some b
      → main P codec args id true turns taken ≡ some (announce P codec id true turns taken b)
  unfolding main
  main-args args id turns taken port b e f = rw (e, f, ◌>>=◌)

  take-nil : (n : ℕ) → take {A = P.Addr} n [] ≡ []
  take-nil zero = refl
  take-nil (suc n) = refl

  -- What is printed behind the banner.
  printed_lines :
      (taken : ℕ) (heard : Bool) (a : P.Addr)
      → print_loop P
          (map discovered (take (suc taken) (if heard then a ∷ [] else [])) ++ ctrl_c ∷ [])
        ≡ (if heard then line a ∷ "" ∷ [] else "" ∷ [])
  unfolding print_loop
  printed_lines taken true a = rw (take-nil taken)
  printed_lines taken false a = refl

  -- Two instances with different ids, with `--port` and a port each, on one network: an instance prints,
  -- behind its banner, one line for its neighbour, with the address of the neighbour, however often it
  -- hears its beacons, if it hears one of them and takes something from its channel before Ctrl-C, no line
  -- if it hears none, and nothing else; if both beacons are printed in at most 1024 bytes.
  pub main-neighbours :
      (program id_a id_b : String) (port : ℕ) (a b : P.Addr) (bytes_a bytes_b : List ℕ)
      (turns_a turns_b : List Turn) (s : Session P) (heard : Bool) (taken : ℕ)
      → (program == "--port") ≡ false
      → port < 2 ^ 16
      → listen_addr P port ≡ some b
      → (id_a == id_b) ≡ false
      → codec.to_vec (record { node_id = id_a; listen_addr = a }) ≡ some bytes_a
      → codec.to_vec (record { node_id = id_b; listen_addr = b }) ≡ some bytes_b
      → length bytes_a ≤ 1024
      → length bytes_b ≤ 1024
      → start P codec true (context P id_a a) turns_a ≡ some s
      → Air bytes_b s.sent turns_b heard
      → main P codec (program ∷ "--port" ∷ show_ℕ port ∷ []) id_b true turns_b (suc taken)
        ≡ some (banner P id_b b ++ (if heard then line a ∷ "" ∷ [] else "" ∷ []))
  unfolding context
  main-neighbours program id_a id_b port a b bytes_a bytes_b turns_a turns_b s heard taken ne small
        at_b ids print_a print_b short_a short_b started air =
      let (t, e, found) =
        start-Air P codec (record { node_id = id_b; addr = b })
          (record { node_id = id_a; addr = a }) bytes_b bytes_a turns_b turns_a s heard ids print_b
          print_a short_b short_a started air in
      main-args _ id_b turns_b (suc taken) port b (parse_port-show_ℕ program port [] ne small) at_b
      ∙ ap some (
          announce-Air id_b b turns_b (suc taken) t _ e found
          ∙ ap (λ lines. banner P id_b b ++ lines) (printed_lines taken heard a))
