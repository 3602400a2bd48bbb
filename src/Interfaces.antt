-- ===== src/Interfaces.antt =====
-- src/interfaces.rs: the interfaces that have a signature table. The table's right sides are statics
-- of the protocol crates, a parameter; its left sides are their names.
use Prim.Native.String.{String}
use Prim.Native.Char.{code}
use wl_resprox.Prelude.{
  Bool, true, false, ◌&&◌, List, [], ◌∷◌, Option, none, some, if◌then◌else◌, ◌==◌,
}
use wl_resprox.Wire.Words.{Bytes}
use wl_resprox.Protocol.{Protocol, MessageDesc}

-- The bytes of an ASCII text.
abbrev pub codes : String → Bytes
codes String.[] = []
codes (String.◌∷◌ c s) = code c ∷ codes s

unfoldable pub bytes_eq : Bytes → Bytes → Bool
bytes_eq [] [] = true
bytes_eq (a ∷ x) (b ∷ y) = a == b && bytes_eq x y
bytes_eq _ _ = false

unfoldable pub known_interfaces : List String
known_interfaces =
    "wl_display" ∷ "wl_registry" ∷ "wl_callback" ∷ "wl_compositor" ∷ "wl_shm_pool" ∷ "wl_shm"
    ∷ "wl_buffer" ∷ "wl_data_offer" ∷ "wl_data_source" ∷ "wl_data_device" ∷ "wl_data_device_manager"
    ∷ "wl_shell" ∷ "wl_shell_surface" ∷ "wl_surface" ∷ "wl_seat" ∷ "wl_pointer" ∷ "wl_keyboard"
    ∷ "wl_touch" ∷ "wl_output" ∷ "wl_region" ∷ "wl_subcompositor" ∷ "wl_subsurface" ∷ "wl_fixes"
    ∷ "xdg_wm_base" ∷ "xdg_positioner" ∷ "xdg_surface" ∷ "xdg_toplevel" ∷ "xdg_popup"
    ∷ "zwp_linux_dmabuf_v1" ∷ "wp_presentation" ∷ "wp_viewporter" ∷ "wp_tearing_control_manager_v1"
    ∷ "wp_fractional_scale_manager_v1" ∷ "zwp_pointer_constraints_v1" ∷ "zwp_pointer_gestures_v1"
    ∷ "zwp_primary_selection_device_manager_v1" ∷ "zwp_relative_pointer_manager_v1"
    ∷ "zwp_idle_inhibit_manager_v1" ∷ "zwp_keyboard_shortcuts_inhibit_manager_v1"
    ∷ "wp_single_pixel_buffer_manager_v1" ∷ "wp_cursor_shape_manager_v1" ∷ "zwp_tablet_manager_v1"
    ∷ "zwp_tablet_manager_v2" ∷ "zwp_text_input_manager_v1" ∷ "zwp_text_input_manager_v3"
    ∷ "wp_security_context_manager_v1" ∷ "wp_alpha_modifier_v1" ∷ "wp_linux_drm_syncobj_manager_v1"
    ∷ "zxdg_output_manager_v1" ∷ "zxdg_decoration_manager_v1" ∷ "xdg_activation_v1"
    ∷ "xdg_toplevel_icon_manager_v1" ∷ "zxdg_exporter_v1" ∷ "zxdg_importer_v1" ∷ "zxdg_exporter_v2"
    ∷ "zxdg_importer_v2" ∷ "ext_idle_notifier_v1" ∷ "ext_session_lock_manager_v1"
    ∷ "ext_foreign_toplevel_list_v1" ∷ "ext_output_image_capture_source_manager_v1"
    ∷ "ext_foreign_toplevel_image_capture_source_manager_v1" ∷ "ext_image_copy_capture_manager_v1"
    ∷ "ext_data_control_manager_v1" ∷ "ext_workspace_manager_v1" ∷ "xdg_wm_dialog_v1"
    ∷ "xdg_system_bell_v1" ∷ "wp_color_manager_v1" ∷ "wp_color_representation_manager_v1"
    ∷ "wp_fifo_manager_v1" ∷ "wp_commit_timing_manager_v1" ∷ "zwlr_data_control_manager_v1"
    ∷ "zwlr_export_dmabuf_manager_v1" ∷ "zwlr_foreign_toplevel_manager_v1"
    ∷ "zwlr_gamma_control_manager_v1" ∷ "zwlr_layer_shell_v1" ∷ "zwlr_output_manager_v1"
    ∷ "zwlr_output_power_manager_v1" ∷ "zwlr_screencopy_manager_v1"
    ∷ "zwlr_virtual_pointer_manager_v1" ∷ "org_kde_kwin_server_decoration_manager"
    ∷ "zwp_input_method_manager_v2" ∷ "zwp_virtual_keyboard_manager_v1"
    ∷ "org_kde_kwin_appmenu_manager" ∷ "xdg_toplevel_drag_manager_v1" ∷ "wp_pointer_warp_v1" ∷ []

module _ {I : Type 0} (P : Protocol I) where
  unfoldable pub find_static : Bytes → List String → Option I
  unfolding bytes_eq
  find_static name [] = none
  find_static name (s ∷ rest) =
      if bytes_eq name (codes s) then some (P.static_interface s) else find_static name rest

  unfoldable pub lookup_interface : Bytes → Option I
  unfolding find_static known_interfaces
  lookup_interface name = find_static name known_interfaces

  -- src/lib.rs: the static child interface if the request declares one, or the one whose name
  -- stands in the message.
  unfoldable pub resolve_child_interface : MessageDesc I → Option Bytes → Option I
  unfolding lookup_interface
  resolve_child_interface desc dynamic_interface_name = elim desc.child_interface [
    | some iface ↦ some iface
    | none ↦ elim dynamic_interface_name [ none ↦ none | some name ↦ lookup_interface name ]
  ]
