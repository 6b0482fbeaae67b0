-- ===== src/Vhost/Device/Monad.antt =====
-- The device's state and the monad of its handlers: the state is kept when an action fails.
use oathgate.Common.{
  ℕ, List, ◌∷◌, ◌++◌, length, get_elem?, set, Option, none, some, Outcome, ok, err, panic,
}
use oathgate.Common.Bytes.{to_le}
use oathgate.Common.HashMap.{HashMap}
use oathgate.Vhost.Error.{Error, errno, queue_not_found}
use oathgate.Vhost.Mapping.{GuestMapping}
use oathgate.Vhost.Queue.{VirtioQueue, VirtQueue}
use oathgate.Vhost.Types.{MemoryRegionDescription}

pub data KickFd : Type 0 where
  rx tx : ℕ → ℕ → KickFd

-- The system calls that the handlers make.
pub data Syscall : Type 0 where
  sendmsg : List ℕ → Syscall
  write : ℕ → List ℕ → Syscall
  register deregister : ℕ → Syscall
  mmap : MemoryRegionDescription → ℕ → Syscall

pub record VirtioDevice (vq : VirtioQueue) : Type 0 where
  pub channel : Option ℕ
  pub queues : List (VirtQueue vq)
  pub mappings : List GuestMapping
  pub status : ℕ
  pub num_queues : ℕ
  pub kick_fds : HashMap ℕ KickFd
  pub router_port : ℕ
  pub calls : List Syscall

-- An action on a state, which keeps the state that a failing action leaves.
abbrev pub Act : Type 0 → Type 0 → Type 0
Act D A = D → D × Outcome Error A

abbrev pub continue {ℓ} :
    {D : Type ℓ} {A B : Type 0}
    → D × Outcome Error A
    → (A → D → D × Outcome Error B)
    → D × Outcome Error B
continue (d, ok a) f = f a d
continue (d, err e) f = (d, err e)
continue (d, panic) f = (d, panic)

infixl 5 ◌>>=◌ ◌>>◌
abbrev pub ◌>>=◌ : {D A B : Type 0} → Act D A → (A → Act D B) → Act D B
◌>>=◌ m f d = continue (m d) f

abbrev pub ◌>>◌ : {D B : Type 0} → Act D (Unit {0}) → Act D B → Act D B
m >> k = m >>= λ _. k

module _ {D : Type 0} where
  abbrev pub lift : {A : Type 0} → Outcome Error A → Act D A
  lift r d = (d, r)

  abbrev pub get : {A : Type 0} → (D → A) → Act D A
  get f d = (d, ok (f d))

  abbrev pub modify : (D → D) → Act D (Unit {0})
  modify f d = (f d, ok tt)

module _ (vq : VirtioQueue) where
  -- `get_virtqueue_mut(idx)?` and a method of the queue that gives a value.
  unfoldable pub on_found :
      {A : Type 0}
      → ℕ
      → (VirtQueue vq → VirtQueue vq × A)
      → VirtioDevice vq
      → Option (VirtQueue vq)
      → VirtioDevice vq × Outcome Error A
  on_found idx f d none = (d, err (queue_not_found idx))
  on_found idx f d (some q) = let (q', a) = f q in (record d { queues = set d.queues idx q' }, ok a)

  unfoldable pub on_virtqueue :
      {A : Type 0} → ℕ → (VirtQueue vq → VirtQueue vq × A) → Act (VirtioDevice vq) A
  unfolding on_found
  on_virtqueue idx f d = on_found idx f d (get_elem? d.queues idx)

  -- A method of the queue that only changes it.
  unfoldable pub update_virtqueue :
      ℕ → (VirtQueue vq → VirtQueue vq) → Act (VirtioDevice vq) (Unit {0})
  unfolding on_virtqueue
  update_virtqueue idx f = on_virtqueue idx (λ q. (f q, tt))

  module _ (os : Syscall → Option ℕ) where
    unfoldable pub syscall : Syscall → Act (VirtioDevice vq) (Unit {0})
    syscall c d =
        (record d { calls = c ∷ d.calls }, elim (os c) [ none ↦ ok tt | some e ↦ err (errno e) ])

    -- A message: its number, its flags, its size and its payload.
    abbrev pub message : ℕ → ℕ → List ℕ → List ℕ
    message id flags body = to_le 4 id ++ to_le 4 flags ++ to_le 4 (length body) ++ body

    -- To the front end, over the backend channel if it is set: version 1.
    unfoldable pub send_msg : ℕ → List ℕ → Act (VirtioDevice vq) (Unit {0})
    unfolding syscall to_le
    send_msg id body d = elim d.channel [
      | some f ↦ syscall (write f (message id 1 body)) d
      | none ↦ (d, ok tt)
    ]

    -- A reply on the control stream: version 1 and the reply flag.
    unfoldable pub send_response : ℕ → List ℕ → Act (VirtioDevice vq) (Unit {0})
    unfolding syscall to_le
    send_response id body = syscall (sendmsg (message id 5 body))
