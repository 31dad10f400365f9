-- ===== src/Authority.antt =====
-- native_module/src/command_authority.hpp
use open_scum_rcon.Base.{Bool, true, false}

pub data CommandAuthority : Type 0 where
  none authenticated_rcon : CommandAuthority

unfoldable pub is_rcon_authorized : CommandAuthority → Bool
is_rcon_authorized none = false
is_rcon_authorized authenticated_rcon = true
