-- ===== src/Sender/Socket.antt =====
-- src/sender/udp_sender.cpp: the constructor of UdpSender, the address that it sends to; the
-- address that main of src/receiver/main_receiver.cpp binds.
use Prim.Native.Nat.{bit_or}
use Prim.Native.String.{String}
use hv_frame_test.Base.{
  ℕ, ◌+◌, ◌-◌, ◌*◌, ◌/◌, ◌%◌, ◌<◌, ◌≡◌, ap, Bool, Option, some, if◌then◌else◌, u16_mod, u32_mod,
  arith, ◌↔◌,
}

-- An int, as stoi returns it: `negsuc n` is -(n + 1).
pub data ℤ : Type 0 where
  pos negsuc : ℕ → ℤ

-- What is left of an int that is passed as a uint16_t.
pub to_u16 : ℤ → ℕ
to_u16 (pos n) = n % u16_mod
to_u16 (negsuc n) = u16_mod - 1 - n % u16_mod

-- On a little-endian machine htons swaps the two bytes.
pub htons : ℕ → ℕ
htons p = p % 256 * 256 + p / 256

-- The members of sockaddr_in that are set. `none` is an address that nobody has written.
pub record SockAddr : Type 0 where
  pub sin_port : ℕ
  pub sin_addr : Option ℕ

-- What the system says to the constructor: the socket, its flags, and whether F_GETFL and F_SETFL
-- work on it.
pub record Opening : Type 0 where
  pub socket : Option ℕ
  pub flags : ℕ
  pub get_works : Bool
  pub set_works : Bool

-- The members of UdpSender that only its constructor writes. `none` is the socket -1. `status` is
-- the flags of the socket itself.
pub record Endpoint : Type 0 where
  pub sock : Option ℕ
  pub status : ℕ
  pub addr : SockAddr

abbrev o_nonblock : ℕ
o_nonblock = 0x800

-- A failing F_GETFL gives -1.
status_after : Opening → ℕ
status_after o =
    if o.set_works
    then bit_or (if o.get_works then o.flags else u32_mod - 1) o_nonblock
    else o.flags

-- Whether the socket could be opened is not looked at. inet_pton leaves the address alone if the
-- text is none.
unfoldable pub construct : (String → Option ℕ) → Opening → String → ℕ → Endpoint
unfolding status_after
construct inet_pton o ip port = record {
  sock = o.socket;
  status = status_after o;
  addr = record { sin_port = htons port; sin_addr = inet_pton ip };
}

-- INADDR_ANY and the port, an int that htons takes as a uint16_t.
bind_address : ℤ → SockAddr
bind_address port = record { sin_port = htons (to_u16 port); sin_addr = some 0 }

-- The difference of two ints is a multiple of 65536.
Congruent : ℤ → ℤ → Type 0
Congruent (pos m) (pos n) = m % 65536 ≡ n % 65536
Congruent (pos m) (negsuc n) = (m + n + 1) % 65536 ≡ 0
Congruent (negsuc m) (pos n) = (m + n + 1) % 65536 ≡ 0
Congruent (negsuc m) (negsuc n) = m % 65536 ≡ n % 65536

htons-injective : (a b : ℕ) → a < 65536 → b < 65536 → htons a ≡ htons b → a ≡ b
unfolding htons
htons-injective a b la lb e = omega arith

to_u16-bound : (n : ℤ) → to_u16 n < 65536
unfolding to_u16
to_u16-bound (pos n) = omega arith
to_u16-bound (negsuc n) = omega arith

to_u16-Congruent : (m n : ℤ) → (to_u16 m ≡ to_u16 n) ↔ Congruent m n
unfolding to_u16 Congruent
to_u16-Congruent (pos m) (pos n) = (λ e. omega arith, λ e. omega arith)
to_u16-Congruent (pos m) (negsuc n) = (λ e. omega arith, λ e. omega arith)
to_u16-Congruent (negsuc m) (pos n) = (λ e. omega arith, λ e. omega arith)
to_u16-Congruent (negsuc m) (negsuc n) = (λ e. omega arith, λ e. omega arith)

-- The sender sends to the port that the receiver binds exactly if the numbers that the two are
-- started with differ by a multiple of 65536.
same_port_iff :
    (inet_pton : String → Option ℕ) (o : Opening) (ip : String) (m n : ℤ)
    → ((construct inet_pton o ip (to_u16 m)).addr.sin_port ≡ (bind_address n).sin_port)
      ↔ Congruent m n
unfolding construct bind_address
same_port_iff inet_pton o ip m n = (
  λ e.
      (to_u16-Congruent m n).0
        (htons-injective (to_u16 m) (to_u16 n) (to_u16-bound m) (to_u16-bound n) e),
  λ c. ap htons ((to_u16-Congruent m n).1 c),
)
