-- ===== src/Vhost/Error.antt =====
-- oathgate-vhost/src/error.rs. Errors of other crates are one constructor each; an `Errno` is its
-- number.
use oathgate.Common.{ℕ}

pub data PayloadError : Type 0 where
  missing : PayloadError
  not_enough_data : ℕ → ℕ → PayloadError
  missing_control_data no_file_descriptors_found control_data_mismatch : PayloadError

pub data MemoryError : Type 0 where
  no_mapped_memory : MemoryError
  no_host_to_guest_mapping_found : ℕ → MemoryError

pub data Error : Type 0 where
  errno : ℕ → Error
  payload : PayloadError → Error
  memory : MemoryError → Error
  mmap_region mmap virtio io : Error
  invalid_message : Error
  queue_not_found : ℕ → Error
  queue_disabled header_missing : Error
