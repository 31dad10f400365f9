-- ===== src/Registry.antt =====
-- native_module/src/registry_dispatch.cpp: the commands of the game's registry, the players, the
-- weather, and the dispatcher of requests.
pub mod Engine
pub mod Players
pub mod Commands
pub mod Weather
pub mod Execute
pub mod Connected
pub mod Details
pub mod Lines
pub mod Lookup
pub mod Running
pub mod Effect
pub mod Callable
