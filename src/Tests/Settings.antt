-- ===== src/Tests/Settings.antt =====
-- The settings of an environment with a port, and of one with a wrong port.
use live_translation.Base.{pos, ◌≡◌, refl, false, Option, none, some, if◌then◌else◌}
use live_translation.Data.{Text, codes}
use live_translation.Ogg.Bytes.{bytes_eq}
use live_translation.Config.{ConfigLib, load_settings, validate_int}

abbrev lib : ConfigLib
lib = record {
  to_int = λ t. if bytes_eq t (codes "6000") then some (pos 6000) else none;
  to_float = λ t. none;
  trunc = λ x. x;
  as_float = λ x. x;
  path_exists = λ t. false;
  lower = λ t. t;
}

-- A variable with this value.
abbrev with_port : Text → Text → Option Text
with_port value name =
    if bytes_eq name (codes "TRANSCRIPTION_SERVER_PORT_UDP") then some value else none

exits : load_settings lib (with_port (codes "udp")) ≡ none
unfolding load_settings validate_int
exits = refl
