-- ===== src/Relay/Gapless.antt =====
-- src/lib.rs: a request that is dropped for want of a sender gives its new object's host id back.
use wl_resprox.Prelude.{
  ℕ, ◌+◌, ◌%◌, ◌^◌, ◌<◌, ◌≡◌, ◌≢◌, refl, ap, ◌∙◌, true, false, ◌&&◌, List, Option, none, some,
  if◌then◌else◌, arith, ==_self,
}
use wl_resprox.Prelude.Map.{Map}
use wl_resprox.Wire.Words.{Bytes, read_u32}
use wl_resprox.Wire.Header.{header_len}
use wl_resprox.Shadow.Table.{
  ShadowTable, host_id, map_ids, allocate_host_id, unallocate_host_id, remove_guest,
}
use wl_resprox.Shadow.Translate.{host_id-map_ids, host_id-remove_guest}
use wl_resprox.Recreation.Graph.{Recreatable, DmabufPlane}
use wl_resprox.Relay.Session.{World, Session, Direction, client_to_host, host_to_client}
use wl_resprox.Relay.Capture.{Incoming, is_client_to_host}
use wl_resprox.Relay.NewId.{word_at, allocate_pair, record_captured, record_capture, create_object}
use wl_resprox.Relay.Forward.{other_side_sender, answer_for_host, roll_back, forward}

module _ {B I : Type 0} (W : World B I) where
  objects-record_captured :
      (d : Direction) (guest : ℕ) (r : Option (Recreatable I)) (planes : Map (ℕ × List DmabufPlane))
      (s : Session B I)
      → (record_captured W d guest (r, planes) s).objects ≡ s.objects
  unfolding record_captured
  objects-record_captured client_to_host guest none planes s = refl
  objects-record_captured client_to_host guest (some r) planes s = refl
  objects-record_captured host_to_client guest r planes s = refl

  objects-answer_for_host :
      (x : Incoming I) (created : Option ℕ) (s : Session B I)
      → (answer_for_host W x created s).objects ≡ (
          if is_client_to_host x.direction && x.desc.is_destructor
          then remove_guest W.protocol W.ids s.objects x.guest_sender_id
          else s.objects)
  unfolding answer_for_host
  objects-answer_for_host x none s = ground arith
  objects-answer_for_host x (some id) s = ground arith

  next_host_id-remove_guest :
      (t : ShadowTable B I) (g : ℕ)
      → (remove_guest W.protocol W.ids t g).next_host_id ≡ t.next_host_id
  unfolding remove_guest
  next_host_id-remove_guest t g = refl

  -- The answers may forget the sender, and no other object.
  answer_for_host-keeps :
      (x : Incoming I) (created : Option ℕ) (s : Session B I) (g : ℕ)
      → g ≢ 0
      → g ≢ x.guest_sender_id
      → (host_id W.protocol W.ids (answer_for_host W x created s).objects g
          ≡ host_id W.protocol W.ids s.objects g)
        × ((answer_for_host W x created s).objects.next_host_id ≡ s.objects.next_host_id)
  answer_for_host-keeps x created s g nz ne =
      rw (objects-answer_for_host x created s)
        (elim (is_client_to_host x.direction && x.desc.is_destructor)
          as (λ b.
            let t =
              if b then remove_guest W.protocol W.ids s.objects x.guest_sender_id else s.objects in
            (host_id W.protocol W.ids t g ≡ host_id W.protocol W.ids s.objects g)
            × (t.next_host_id ≡ s.objects.next_host_id)) [
              | true ↦ (
                ground (
                  arith,
                  (host_id-remove_guest W.protocol W.ids s.objects x.guest_sender_id g nz).0,
                ),
                next_host_id-remove_guest s.objects x.guest_sender_id,
              )
              | false ↦ (refl, refl)
            ])

  -- Rolling an object back: it is forgotten, and its host id is given back.
  objects-roll_back :
      (x : Incoming I) (g h : ℕ) (s : Session B I)
      → x.direction ≡ client_to_host
      → host_id W.protocol W.ids s.objects g ≡ some h
      → (roll_back W x (some g) s).objects
        ≡ remove_guest W.protocol W.ids (unallocate_host_id W.protocol W.ids s.objects h) g
  unfolding roll_back is_client_to_host
  objects-roll_back x g h s d e = rw (d, e) refl

  -- The new object of a request is the one that its message names, under the next host id.
  objects-create_object :
      (x : Incoming I) (msg : Bytes) (off : ℕ) (child : I) (s : Session B I)
      → x.direction ≡ client_to_host
      → ((create_object W x msg off child s).1
          ≡ some (word_at (read_u32 W.endian msg (header_len + off))))
        × ((create_object W x msg off child s).2.objects
            ≡ map_ids W.protocol W.ids
                (allocate_host_id W.protocol W.ids s.objects).1
                (word_at (read_u32 W.endian msg (header_len + off)))
                s.objects.next_host_id
                child)
  unfolding create_object record_capture allocate_pair allocate_host_id
  objects-create_object x msg off child s d =
      (rw d refl, objects-record_captured x.direction _ _ _ _ ∙ rw d refl)

  forward-undone :
      (x : Incoming I) (msg : Bytes) (g h : ℕ) (t : Session B I)
      → x.direction ≡ client_to_host
      → g ≢ 0
      → g ≢ x.guest_sender_id
      → other_side_sender W x.direction x.guest_sender_id t ≡ none
      → host_id W.protocol W.ids t.objects g ≡ some h
      → (forward W x msg (some g) t).1.objects
        ≡ remove_guest W.protocol W.ids
            (unallocate_host_id W.protocol W.ids (answer_for_host W x (some g) t).objects h)
            g
  unfolding forward
  forward-undone x msg g h t d nz ne e k =
      rw (e, forward)
        (objects-roll_back x g h (answer_for_host W x (some g) t) d
          ((answer_for_host-keeps x (some g) t g nz ne).0 ∙ k))

  next_host_id-mapped :
      (t : ShadowTable B I) (g h : ℕ) (child : I)
      → (map_ids W.protocol W.ids (allocate_host_id W.protocol W.ids t).1 g h child).next_host_id
        ≡ (t.next_host_id + 1) % 2 ^ 32
  unfolding map_ids allocate_host_id
  next_host_id-mapped t g h child = refl

  -- Giving back the id that the counter has just left.
  next_host_id-unallocate :
      (t : ShadowTable B I) (n : ℕ)
      → n < 2 ^ 32
      → t.next_host_id ≡ (n + 1) % 2 ^ 32
      → (unallocate_host_id W.protocol W.ids t n).next_host_id ≡ n
  unfolding unallocate_host_id
  next_host_id-unallocate t n small e = ground arith

  -- A request that names a new object, whose id is neither null nor the sender's, and whose sender
  -- has no translation, is undone: the next host id is what it was, if that is a 32-bit word, so
  -- that the ids that the host sees have no gap, and the object has no translation.
  pub forward-create_object :
      (x : Incoming I) (msg msg' : Bytes) (off : ℕ) (child : I) (s : Session B I)
      → x.direction ≡ client_to_host
      → s.objects.next_host_id < 2 ^ 32
      → word_at (read_u32 W.endian msg (header_len + off)) ≢ 0
      → word_at (read_u32 W.endian msg (header_len + off)) ≢ x.guest_sender_id
      → other_side_sender W x.direction x.guest_sender_id (create_object W x msg off child s).2
        ≡ none
      → let (_, created, t) = create_object W x msg off child s in
        let dropped = (forward W x msg' created t).1.objects in
        (dropped.next_host_id ≡ s.objects.next_host_id)
        × (host_id W.protocol W.ids dropped (word_at (read_u32 W.endian msg (header_len + off)))
            ≡ none)
  forward-create_object x msg msg' off child s d small nz ne e =
      let g = word_at (read_u32 W.endian msg (header_len + off)) in
      let n = s.objects.next_host_id in
      let (_, created, t) = create_object W x msg off child s in
      let (named, mapped) = objects-create_object x msg off child s d in
      let allocated = (allocate_host_id W.protocol W.ids s.objects).1 in
      let translates : host_id W.protocol W.ids t.objects g ≡ some n =
        rw mapped
          (host_id-map_ids W.protocol W.ids allocated g n g child nz ∙ rw (==_self g) refl) in
      let undone = forward-undone x msg' g n t d nz ne e translates in
      let counted =
        (answer_for_host-keeps x (some g) t g nz ne).1
        ∙ ap (λ (o : ShadowTable B I). o.next_host_id) mapped
        ∙ next_host_id-mapped s.objects g n child in
      let given_back =
        unallocate_host_id W.protocol W.ids (answer_for_host W x (some g) t).objects n in
      rw (named, undone)
        (
          next_host_id-remove_guest given_back g
              ∙ next_host_id-unallocate (answer_for_host W x (some g) t).objects n small counted,
          (host_id-remove_guest W.protocol W.ids given_back g g nz).0 ∙ rw (==_self g) refl,
        )
