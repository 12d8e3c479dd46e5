-- ===== src/Kom/Error.antt =====
-- archs/kom/common/kobject.hpp: the error codes of the object manager.

pub data Error : Type 0 where
  ok stale_handle cap_denied invalid_type no_memory unsupported not_found collision io peer_closed :
      Error
  buffer_too_small : Error
