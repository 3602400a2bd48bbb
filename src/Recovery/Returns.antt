-- ===== src/Recovery/Returns.antt =====
-- src/lib.rs: `recover_state_after_reconnect` comes back from a compositor that goes away again.
use wl_resprox.Prelude.{
  ℕ, zero, suc, ◌≡◌, ◌≢◌, refl, List, [], ◌∷◌, Option, none, arith, Option-cases, inl, inr,
}
use wl_resprox.Wire.Words.{Endian}
use wl_resprox.Recreation.Graph.{RecreationGraph}
use wl_resprox.Relay.Session.{World, Conn}
use wl_resprox.Connection.Line.{
  Line, Arrival, chunk, would_block, failed, quiet, Next, message, waits, receive, buffered,
  next_from, next_message, send,
}
use wl_resprox.Connection.Line
use wl_resprox.Connection.Room.{room}
use wl_resprox.Recovery.State.{Recovery}
use wl_resprox.Recovery.Registry.{
  Globals, Collected, lost, unanswered, out_of_fuel, synced, heard, collect_after, collect_globals,
}
use wl_resprox.Recovery.Toplevel.{Awaited, handshake}
use wl_resprox.Recovery.Toplevel
use wl_resprox.Recovery.Recover.{
  never_synced, starved, find_registry, ask_registry, rebuild, after_registry, fetch_registry,
  recover_state_after_reconnect,
}
use wl_resprox.Recovery.Fuel.{recover_state_after_reconnect-starved, handshake-Ends}

-- What comes has an end: the end of the stream or an error, whatever silence comes before it.
abbrev pub HasEnd : List Arrival → Type 0
HasEnd [] = ⊥
HasEnd (chunk [] fds ∷ rest) = Unit
HasEnd (chunk (b ∷ bytes) fds ∷ rest) = HasEnd rest
HasEnd (would_block ∷ rest) = HasEnd rest
HasEnd (failed ∷ rest) = Unit
HasEnd (quiet ∷ rest) = HasEnd rest

-- What `next_message` makes of it: a failure, or else such an end is still behind it.
abbrev Moves : Next × Line → Type 0
Moves (message header msg, line) = HasEnd line.arrivals
Moves (Line.failed, line) = Unit
Moves (waits, line) = HasEnd line.arrivals

next_from-Moves :
    (e : Endian) (arrivals : List Arrival) (c : Conn)
    → HasEnd arrivals
    → Moves (next_from e arrivals c)
unfolding next_from receive
next_from-Moves e [] c h = absurd h
next_from-Moves e (chunk [] fds ∷ rest) c h = elim (Option-cases (buffered e c)) [
  | inl missing ↦ rw (missing, next_from) tt
  | inr ((header, msg, c'), b) ↦ rw (b, next_from) h
]
next_from-Moves e (chunk (x ∷ xs) fds ∷ rest) c h = elim (Option-cases (buffered e c)) [
  | inl missing ↦ rw (missing, next_from) (next_from-Moves e rest _ h)
  | inr ((header, msg, c'), b) ↦ rw (b, next_from) h
]
next_from-Moves e (would_block ∷ rest) c h = elim (Option-cases (buffered e c)) [
  | inl missing ↦ rw (missing, next_from) (next_from-Moves e rest c h)
  | inr ((header, msg, c'), b) ↦ rw (b, next_from) h
]
next_from-Moves e (failed ∷ rest) c h = elim (Option-cases (buffered e c)) [
  | inl missing ↦ rw (missing, next_from) tt
  | inr ((header, msg, c'), b) ↦ rw (b, next_from) h
]
next_from-Moves e (quiet ∷ rest) c h = elim (Option-cases (buffered e c)) [
  | inl missing ↦ rw (missing, next_from) h
  | inr ((header, msg, c'), b) ↦ rw (b, next_from) h
]

module _ {B I : Type 0} (W : World B I) where
  silent-answered :
      (x : Collected × Line) (line : Line) (arrivals : List Arrival)
      → HasEnd arrivals
      → x.0 ≢ unanswered
      → (elim arrivals as (λ (v : List Arrival). Collected × Line) [
        | [] ↦ (unanswered, line)
        | a ∷ rest ↦ x
      ]).0
        ≢ unanswered
  silent-answered x line [] h later = absurd h
  silent-answered x line (a ∷ rest) h later = later

  collect_after-answered :
      (go_on : Globals → Line → Collected × Line) (registry sync : ℕ) (globals : Globals)
      (x : Next × Line)
      → ((g : Globals) (l : Line) → HasEnd l.arrivals → (go_on g l).0 ≢ unanswered)
      → Moves x
      → (collect_after W go_on registry sync globals x).0 ≢ unanswered
  unfolding collect_after
  collect_after-answered go_on registry sync globals (Line.failed, line) ih moves q = cc
  collect_after-answered go_on registry sync globals (waits, line) ih moves q =
      silent-answered (go_on globals line) line line.arrivals moves (ih globals line moves) q
  collect_after-answered go_on registry sync globals (message header msg, line) ih moves q =
      elim (Option-cases (heard W registry sync header msg globals)) [
        | inl done ↦ ground arith
        | inr (noted, more) ↦ let later = ih noted line moves in ground arith
      ]

  collect_globals-answered :
      (fuel registry sync : ℕ) (globals : Globals) (line : Line)
      → HasEnd line.arrivals
      → (collect_globals W fuel registry sync globals line).0 ≢ unanswered
  unfolding collect_globals next_message
  collect_globals-answered zero registry sync globals line h = λ q. cc
  collect_globals-answered (suc fuel) registry sync globals line h =
      collect_after-answered (collect_globals W fuel registry sync) registry sync globals
        (next_message W.endian line) (collect_globals-answered fuel registry sync)
        (next_from-Moves W.endian line.arrivals line.conn h)

  asked_arrivals : (s : Recovery B I) → (ask_registry W s).3.host.arrivals ≡ s.host.arrivals
  unfolding ask_registry send
  asked_arrivals s = ground arith

  after_registry-answered :
      (graph : RecreationGraph I) (guest : ℕ) (iface : I) (registry : ℕ) (s : Recovery B I)
      (x : Collected × Line)
      → x.0 ≢ unanswered
      → after_registry W graph guest iface registry s x ≢ never_synced
  unfolding after_registry rebuild
  after_registry-answered graph guest iface registry s (lost, host) h = λ q. cc
  after_registry-answered graph guest iface registry s (unanswered, host) h = absurd (h refl)
  after_registry-answered graph guest iface registry s (out_of_fuel, host) h = λ q. cc
  after_registry-answered graph guest iface registry s (synced globals, host) h = λ q. ground arith

  -- If what the new compositor sends comes to an end or an error, then recovery comes back, whatever
  -- bytes and silence come before and in whatever pieces: it does not wait for the registry without
  -- end. The fuel that stands for that wait never runs out, nor does that of the two waits of the
  -- handshake for a recreated toplevel, whatever comes.
  pub recover_state_after_reconnect-returns :
      (graph : RecreationGraph I) (s t : Recovery B I) (a : Awaited) (opcode : Option ℕ)
      → HasEnd s.host.arrivals
      → (recover_state_after_reconnect W graph s ≢ never_synced)
        × (recover_state_after_reconnect W graph s ≢ starved)
        × ((handshake W a opcode t).0 ≢ Toplevel.out_of_fuel)
  unfolding recover_state_after_reconnect fetch_registry
  recover_state_after_reconnect-returns graph s t a opcode h =
      let cleared : Recovery B I = record s {
        reclaim = record s.reclaim { active_source_host_id = none };
      } in
      let (ok, registry, sync, asked) = ask_registry W cleared in
      (
        λ q. elim (Option-cases (find_registry W cleared)) [
          | inl missing ↦ ground arith
          | inr ((guest, iface), found) ↦
              let fine =
                after_registry-answered graph guest iface registry asked
                  (collect_globals W (suc (room asked.host)) registry sync [] asked.host)
                  (collect_globals-answered (suc (room asked.host)) registry sync [] asked.host
                    (rw (asked_arrivals cleared) h)) in
              ground arith
        ],
        recover_state_after_reconnect-starved W graph s,
        handshake-Ends W t a opcode,
      )
