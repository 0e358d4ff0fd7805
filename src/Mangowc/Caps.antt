-- ===== src/Mangowc/Caps.antt =====
-- mangowc/src/lib.rs: the manifest, and `set` and `get` against it.
use middlesox.Prelude.{String, true, false, err, ◌≡◌, refl, ◌<>◌}
use middlesox.Json.{Value}
use middlesox.Capability.{is_writable, read_only_cap, read_write_cap, with_description}
use middlesox.Manifest
use middlesox.Manifest.{CapabilityManifest, add, find_cap}
use middlesox.Manifest.Writes.{declares_writable, apart}
use middlesox.Mangowc.Commands.{Thread, set_on}

unfoldable pub manifest : CapabilityManifest
unfolding Manifest.new add read_write_cap read_only_cap with_description
manifest =
    add
      (add
        (add
          (add
            (add
              (add
                (add
                  (add
                    (add
                      (add
                        (add
                          (add
                            (add
                              (add
                                (add
                                  (add
                                    (add
                                      (add
                                        (add
                                          (add
                                            (add
                                              (add
                                                (add
                                                  (add
                                                    (add
                                                      (add Manifest.new (
                                                        with_description (read_write_cap "layout")
                                                          "Window layout index"))
                                                      (with_description
                                                        (read_write_cap "layout_name")
                                                        "Window layout name"))
                                                    (with_description
                                                      (read_only_cap "layout_symbol")
                                                      "Dynamic window layout symbol"))
                                                  (with_description (read_only_cap "layouts")
                                                    "Available layout names"))
                                                (with_description (read_write_cap "tags")
                                                  "Active tag bitmask"))
                                              (with_description (read_write_cap "client_tags")
                                                "Focused client tag bitmask"))
                                            (with_description (read_only_cap "tag_count")
                                              "Number of tags"))
                                          (with_description (read_only_cap "tag_info")
                                            "Per-tag state for current output"))
                                        (with_description (read_only_cap "occupied_tags")
                                          "Occupied tag bitmask"))
                                      (with_description (read_only_cap "urgent_tags")
                                        "Urgent tag bitmask"))
                                    (with_description (read_only_cap "client_count")
                                      "Number of clients on current output"))
                                  (with_description (read_only_cap "title") "Focused window title"))
                                (with_description (read_only_cap "appid") "Focused window app ID"))
                              (with_description (read_only_cap "output") "Current output name"))
                            (with_description (read_only_cap "outputs") "Known output names"))
                          (with_description (read_only_cap "fullscreen")
                            "Focused client fullscreen state"))
                        (with_description (read_only_cap "floating")
                          "Focused client floating state"))
                      (with_description (read_only_cap "geometry") "Focused client geometry"))
                    (with_description (read_only_cap "x") "Focused client x coordinate"))
                  (with_description (read_only_cap "y") "Focused client y coordinate"))
                (with_description (read_only_cap "width") "Focused client width"))
              (with_description (read_only_cap "height") "Focused client height"))
            (with_description (read_only_cap "last_layer") "Last focused layer name"))
          (with_description (read_only_cap "kb_layout") "Current keyboard layout"))
        (with_description (read_only_cap "keymode") "Current keybind mode"))
      (with_description (read_only_cap "scale_factor") "Output scale factor")

written_keys :
    (declares_writable manifest "tags" ≡ true)
    × (declares_writable manifest "client_tags" ≡ true)
    × (declares_writable manifest "layout" ≡ true)
    × (declares_writable manifest "layout_name" ≡ true)
unfolding manifest find_cap is_writable
written_keys = (refl, refl, refl, refl)

-- The adapter refuses to set every key that its manifest does not declare writable, and sends nothing
-- for it.
pub set_on-not_writable :
    (key : String) (v : Value) (t : Thread)
    → declares_writable manifest key ≡ false
    → set_on key v t ≡ (err ("Cannot set '" <> key <> "' (read-only or unknown)"), t)
unfolding set_on
set_on-not_writable key v t h =
    let (tags, client_tags, layout, layout_name) = written_keys in
    let differs = apart (declares_writable manifest) key in
    rw
      (
        differs "tags" tags h,
        differs "client_tags" client_tags h,
        differs "layout" layout h,
        differs "layout_name" layout_name h,
      )
      refl
