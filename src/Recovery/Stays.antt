-- ===== src/Recovery/Stays.antt =====
-- src/lib.rs: the steps of `recover_state_after_reconnect` that leave the table alone.
use Prim.Native.String.{String}
use wl_resprox.Prelude.{
  drop, ℕ, zero, suc, ◌≡◌, refl, ◌∙◌, Bool, true, false, List, [], ◌∷◌, Option, none, some, arith,
  Bool-cases, Option-cases, inl, inr,
}
use wl_resprox.Wire.Words.{Bytes}
use wl_resprox.Wire.Header.{MessageHeader, header_len, build_message}
use wl_resprox.Connection.Room.{room}
use wl_resprox.Wire.Encode.{ArgumentType, WaylandValue}
use wl_resprox.Recreation.Graph.{RecreationGraph}
use wl_resprox.Shadow.Table.{ShadowTable}
use wl_resprox.Relay.Session.{World}
use wl_resprox.Connection.Line.{Line, failed, Next, message, waits, next_message, send}
use wl_resprox.Connection.Open.{StaysOpen, next_from-StaysOpen}
use wl_resprox.Recovery.State.{Recovery, issue, request_named}
use wl_resprox.Recovery.Recreate.{follow_up}
use wl_resprox.Recovery.Toplevel.{
  Waited, satisfied, gave_up, out_of_fuel, acknowledge, Awaited, is_from, pass_on, if_passed,
  on_configure, configure_after, await_configure, ack_after, await_ack, handshake, force_commit,
  replay_text, configure, commit_target, present, awaited,
}
use wl_resprox.Recovery.Unfailing.{send-answers, next_from-answers}

module _ {B I : Type 0} (W : World B I) where
  -- The table is as before; if all writes to the host succeed they still do; and if the client's
  -- stream neither ends nor fails it still does not; and what the client is owed is as before.
  abbrev pub Stays : Recovery B I → Recovery B I → Type 0
  Stays s t =
      (t.objects ≡ s.objects)
      × (s.host.conn.answers ≡ [] → t.host.conn.answers ≡ [])
      × (StaysOpen s.gtk → StaysOpen t.gtk)
      × (t.buffer_flow ≡ s.buffer_flow)
      × (t.pending_frames ≡ s.pending_frames)

  Stays-trans : (s t u : Recovery B I) → Stays s t → Stays t u → Stays s u
  Stays-trans s t u (same, fine, kept, flow, frames) (same', fine', kept', flow', frames') =
      (same' ∙ same, (λ h. fine' (fine h)), (λ o. kept' (kept o)), flow' ∙ flow, frames' ∙ frames)

  pub issue-answers :
      (line : Line) (sender opcode : ℕ) (signature : List ArgumentType) (values : List WaylandValue)
      → line.conn.answers ≡ []
      → (issue W line sender opcode signature values).1.conn.answers ≡ []
  unfolding issue
  issue-answers line sender opcode signature values h = ground (arith, send-answers line _ _ h)

  -- A state that has another host line, whose writes succeed as well.
  send-Stays :
      (s : Recovery B I) (msg : Bytes) (fds : List ℕ)
      → Stays s (record s { host = (send s.host msg fds).1 })
  send-Stays s msg fds = (refl, (λ h. (send-answers s.host msg fds h).1), (λ o. o), refl, refl)

  pub follow_up-Stays :
      (host : ℕ) (child : I) (name : String) (values : List WaylandValue) (s : Recovery B I)
      → Stays s (follow_up W host child name values s)
  unfolding follow_up
  follow_up-Stays host child name values s = elim (Option-cases (request_named W child name)) [
    | inl missing ↦ rw (missing, follow_up) (refl, (λ h. h), (λ o. o), refl, refl)
    | inr ((opcode, desc), found) ↦
        rw (found, follow_up)
          (
            refl,
            (λ h. issue-answers s.host host opcode desc.signature values h),
            (λ o. o),
            refl,
            refl,
          )
  ]

  replay_text-Stays :
      (name : String) (text : Option Bytes) (host : ℕ) (child : I) (s : Recovery B I)
      → Stays s (replay_text W name text host child s)
  unfolding replay_text
  replay_text-Stays name none host child s = (refl, (λ h. h), (λ o. o), refl, refl)
  replay_text-Stays name (some text) host child s =
      follow_up-Stays host child name (WaylandValue.string text ∷ []) s

  force_commit-Stays :
      (graph : RecreationGraph I) (parent : ℕ) (s : Recovery B I)
      → Stays s (force_commit W graph parent s).1
  unfolding force_commit
  force_commit-Stays graph parent s = elim (Option-cases (commit_target W graph parent s.objects)) [
    | inl missing ↦ rw (missing, force_commit) (refl, (λ h. h), (λ o. o), refl, refl)
    | inr ((surface_host, opcode), found) ↦
        rw (found, force_commit) (send-Stays s (build_message W.endian surface_host opcode []) [])
  ]

  if_passed-Stays :
      (s t : Recovery B I) (ok : Bool) (x : Waited × Recovery B I)
      → Stays s t
      → Stays s x.1
      → Stays s (if_passed W (ok, t) x).1
  unfolding if_passed
  if_passed-Stays s t true x st sx = sx
  if_passed-Stays s t false x st sx = st

  -- A wait stays if it does however it goes on.
  abbrev Staying : (Recovery B I → Waited × Recovery B I) → Type 0
  Staying go_on = (t : Recovery B I) → Stays t (go_on t).1

  on_configure-Stays :
      (go_on : Recovery B I → Waited × Recovery B I) (a : Awaited) (header : MessageHeader)
      (msg : Bytes) (s : Recovery B I)
      → Staying go_on
      → Stays s (on_configure W go_on a header msg s).1
  unfolding on_configure
  on_configure-Stays go_on a header msg s ih =
      elim (Bool-cases (is_from a.toplevel_host a.toplevel_configure header)) [
        | inl top ↦
            rw (top, on_configure)
              (if_passed-Stays s _ _ _ (refl, (λ h. h), (λ o. o), refl, refl) (ih _))
        | inr other ↦ elim (Bool-cases (is_from a.parent_host a.parent_configure header)) [
          | inl parent ↦
              rw (other, parent, on_configure)
                (if_passed-Stays s _ _ _ (refl, (λ h. h), (λ o. o), refl, refl)
                  (refl, (λ h. h), (λ o. o), refl, refl))
          | inr neither ↦ rw (other, neither, on_configure) (ih s)
        ]
      ]

  -- What arrives does not change how writes go.
  next_message-Stays :
      (s : Recovery B I) → Stays s (record s { host = (next_message W.endian s.host).1 })
  unfolding next_message
  next_message-Stays s = (
    refl,
    (λ h. next_from-answers W.endian s.host.arrivals s.host.conn ∙ h),
    (λ o. o),
    refl,
    refl,
  )

  gtk_message-Stays :
      (s : Recovery B I) → Stays s (record s { gtk = (next_message W.endian s.gtk).1 })
  unfolding next_message
  gtk_message-Stays s =
      (refl, (λ h. h), next_from-StaysOpen W.endian s.gtk.arrivals s.gtk.conn, refl, refl)

  configure_after-Stays :
      (go_on : Recovery B I → Waited × Recovery B I) (a : Awaited) (s : Recovery B I)
      (x : Next × Line)
      → Staying go_on
      → Stays s (record s { host = x.1 })
      → Stays s (configure_after W go_on a s x).1
  unfolding configure_after
  configure_after-Stays go_on a s (message header msg, host) ih st =
      Stays-trans s (record s { host = host })
        (on_configure W go_on a header msg (record s { host = host })).1 st
        (on_configure-Stays go_on a header msg (record s { host = host }) ih)
  configure_after-Stays go_on a s (failed, host) ih st = st
  configure_after-Stays go_on a s (waits, host) ih st = st

  await_configure-Stays : (fuel : ℕ) (a : Awaited) → Staying (await_configure W fuel a)
  unfolding await_configure
  await_configure-Stays zero a s = (refl, (λ h. h), (λ o. o), refl, refl)
  await_configure-Stays (suc fuel) a s =
      configure_after-Stays (await_configure W fuel a) a s (next_message W.endian s.host)
        (await_configure-Stays fuel a) (next_message-Stays s)

  ack_after-Stays :
      (go_on : Recovery B I → Waited × Recovery B I) (a : Awaited) (opcode : Option ℕ)
      (s : Recovery B I) (x : Next × Line)
      → Staying go_on
      → Stays s (record s { gtk = x.1 })
      → Stays s (ack_after W go_on a opcode s x).1
  unfolding ack_after pass_on
  ack_after-Stays go_on a opcode s (message header msg, gtk) ih st =
      let heard : Recovery B I = record s { gtk = gtk } in
      elim (Bool-cases (is_from a.parent_guest opcode header)) [
        | inl acked ↦
            let ack : Bytes =
              build_message W.endian a.parent_host header.opcode (drop header_len msg) in
            let told =
              Stays-trans s heard (record heard { host = (send heard.host ack []).1 }) st
                (send-Stays heard ack []) in
            rw (acked, ack_after) (if_passed-Stays s _ _ _ told told)
        | inr other ↦ rw (other, ack_after) (Stays-trans s heard (go_on heard).1 st (ih heard))
      ]
  ack_after-Stays go_on a opcode s (failed, gtk) ih st = st
  ack_after-Stays go_on a opcode s (waits, gtk) ih st = st

  await_ack-Stays :
      (fuel : ℕ) (a : Awaited) (opcode : Option ℕ) → Staying (await_ack W fuel a opcode)
  unfolding await_ack
  await_ack-Stays zero a opcode s = (refl, (λ h. h), (λ o. o), refl, refl)
  await_ack-Stays (suc fuel) a opcode s =
      ack_after-Stays (await_ack W fuel a opcode) a opcode s (next_message W.endian s.gtk)
        (await_ack-Stays fuel a opcode) (gtk_message-Stays s)

  acknowledge-Stays :
      (a : Awaited) (opcode : Option ℕ) (s : Recovery B I) (x : Waited × Recovery B I)
      → Stays s x.1
      → Stays s (acknowledge W a opcode x).1
  unfolding acknowledge
  acknowledge-Stays a opcode s (satisfied, t) st =
      Stays-trans s t (await_ack W (suc (room t.gtk)) a opcode t).1 st
        (await_ack-Stays (suc (room t.gtk)) a opcode t)
  acknowledge-Stays a opcode s (gave_up, t) st = st
  acknowledge-Stays a opcode s (out_of_fuel, t) st = st

  handshake-Stays : (a : Awaited) (opcode : Option ℕ) → Staying (handshake W a opcode)
  unfolding handshake
  handshake-Stays a opcode s =
      acknowledge-Stays a opcode s (await_configure W (suc (room s.host)) a s)
        (await_configure-Stays (suc (room s.host)) a s)

  pub configure-Stays :
      (graph : RecreationGraph I) (parent : ℕ) (x : Option (Awaited × Option ℕ)) (s : Recovery B I)
      → Stays s (configure W graph parent x s)
  unfolding configure
  configure-Stays graph parent none s = (refl, (λ h. h), (λ o. o), refl, refl)
  configure-Stays graph parent (some (a, opcode)) s =
      let first = force_commit-Stays graph parent s in
      elim (Bool-cases (force_commit W graph parent s).0) [
        | inl sent ↦
            rw (sent, configure)
              (Stays-trans s (force_commit W graph parent s).1
                (handshake W a opcode (force_commit W graph parent s).1).1 first
                (handshake-Stays a opcode (force_commit W graph parent s).1))
        | inr not_sent ↦ rw (not_sent, configure) first
      ]

  -- A recreated toplevel is named and configured with the table as the recipe left it.
  pub present-Stays :
      (graph : RecreationGraph I) (before : ShadowTable B I) (guest parent : ℕ)
      (title app_id : Option Bytes) (host : ℕ) (child : I) (s : Recovery B I)
      → Stays s (present W graph before guest parent title app_id host child s)
  unfolding present
  present-Stays graph before guest parent title app_id host child s =
      let titled : Recovery B I = replay_text W "set_title" title host child s in
      let named : Recovery B I = replay_text W "set_app_id" app_id host child titled in
      let target = awaited W guest parent host child before in
      Stays-trans s titled (configure W graph parent target named)
        (replay_text-Stays "set_title" title host child s)
        (Stays-trans titled named (configure W graph parent target named)
          (replay_text-Stays "set_app_id" app_id host child titled)
          (configure-Stays graph parent target named))
