-- ===== src/Vhost/Device/Messages/Dispatch.antt =====
-- oathgate-vhost/src/device.rs, `parse_msg`: the handler of a request by its number.
use oathgate.Common.{ℕ, ◌==◌, if◌then◌else◌, Option, ok}
use oathgate.Vhost.Device.Messages.{
  Handler, get_features, set_features, get_protocol_features, set_protocol_features, get_queue_num,
  set_backend_req_fd, get_max_mem_slots, set_vring_enable, set_owner, set_vring_call, set_vring_err,
  set_status, get_status, set_vring_num, set_vring_addr, set_vring_base, get_vring_base,
  set_vring_kick, set_mem_table, add_mem_reg,
}
use oathgate.Vhost.Device.Monad.{Syscall, lift}
use oathgate.Vhost.Queue.{VirtioQueue}

module _ (vq : VirtioQueue) (os : Syscall → Option ℕ) where
  -- A request that the device logs and does no more about.
  unfoldable pub ignore : Handler vq os
  ignore hdr = lift (ok tt)

  -- `match hdr.ty`
  unfoldable pub handler_of : ℕ → Handler vq os
  unfolding ignore
  handler_of ty =
      if ty == 1
      then get_features vq os
      else if ty == 2
      then set_features vq os
      else if ty == 3
      then set_owner vq os
      else if ty == 5
      then set_mem_table vq os
      else if ty == 8
      then set_vring_num vq os
      else if ty == 9
      then set_vring_addr vq os
      else if ty == 10
      then set_vring_base vq os
      else if ty == 11
      then get_vring_base vq os
      else if ty == 12
      then set_vring_kick vq os
      else if ty == 13
      then set_vring_call vq os
      else if ty == 14
      then set_vring_err vq os
      else if ty == 15
      then get_protocol_features vq os
      else if ty == 16
      then set_protocol_features vq os
      else if ty == 17
      then get_queue_num vq os
      else if ty == 18
      then set_vring_enable vq os
      else if ty == 21
      then set_backend_req_fd vq os
      else if ty == 36
      then get_max_mem_slots vq os
      else if ty == 37
      then add_mem_reg vq os
      else if ty == 39
      then set_status vq os
      else if ty == 40
      then get_status vq os
      else ignore

  unfoldable pub parse_msg : Handler vq os
  unfolding handler_of
  parse_msg hdr = handler_of hdr.ty hdr
