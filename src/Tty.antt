-- ===== src/Tty.antt =====
-- session/channel.rs, `TtyOpcode`: the terminal modes of RFC 4254.
pub mod Modes
pub mod Laws
pub mod RoundTrip
mod Runs
use flatline.Common.{
  ℕ, ◌+◌, ◌≡◌, Bool, true, false, ◌&&◌, ◌==◌, leb, if◌then◌else◌, Option, none, some,
}

pub data TtyOpcode : Type 0 where
  tty_op_end vintr vquit verase vkill veof veol veol2 : TtyOpcode
  vstart vstop vsusp vdsusp vreprint vwerase vlnext vflush : TtyOpcode
  vswitch vstatus vdiscard ignpar parmrk inpck istrip inlcr : TtyOpcode
  igncr icrnl iuclc ixon ixany ixoff imaxbel iutf8 : TtyOpcode
  isig icanon xcase echo echoe echok echonl noflsh : TtyOpcode
  tostop iexten echoctl echoke pendin opost olcuc onlcr : TtyOpcode
  ocrnl onocr onlret cs7 cs8 parenb parodd tty_op_ispeed : TtyOpcode
  tty_op_ospeed : TtyOpcode

-- `*self as u8`
unfoldable pub as_u8 : TtyOpcode → ℕ
as_u8 tty_op_end = 0
as_u8 vintr = 1
as_u8 vquit = 2
as_u8 verase = 3
as_u8 vkill = 4
as_u8 veof = 5
as_u8 veol = 6
as_u8 veol2 = 7
as_u8 vstart = 8
as_u8 vstop = 9
as_u8 vsusp = 10
as_u8 vdsusp = 11
as_u8 vreprint = 12
as_u8 vwerase = 13
as_u8 vlnext = 14
as_u8 vflush = 15
as_u8 vswitch = 16
as_u8 vstatus = 17
as_u8 vdiscard = 18
as_u8 ignpar = 30
as_u8 parmrk = 31
as_u8 inpck = 32
as_u8 istrip = 33
as_u8 inlcr = 34
as_u8 igncr = 35
as_u8 icrnl = 36
as_u8 iuclc = 37
as_u8 ixon = 38
as_u8 ixany = 39
as_u8 ixoff = 40
as_u8 imaxbel = 41
as_u8 iutf8 = 42
as_u8 isig = 50
as_u8 icanon = 51
as_u8 xcase = 52
as_u8 echo = 53
as_u8 echoe = 54
as_u8 echok = 55
as_u8 echonl = 56
as_u8 noflsh = 57
as_u8 tostop = 58
as_u8 iexten = 59
as_u8 echoctl = 60
as_u8 echoke = 61
as_u8 pendin = 62
as_u8 opost = 70
as_u8 olcuc = 71
as_u8 onlcr = 72
as_u8 ocrnl = 73
as_u8 onocr = 74
as_u8 onlret = 75
as_u8 cs7 = 90
as_u8 cs8 = 91
as_u8 parenb = 92
as_u8 parodd = 93
as_u8 tty_op_ispeed = 128
as_u8 tty_op_ospeed = 129

unfoldable pub from_u8 : ℕ → Option TtyOpcode
from_u8 value =
    if value == 0
    then some tty_op_end
    else if value == 1
    then some vintr
    else if value == 2
    then some vquit
    else if value == 3
    then some verase
    else if value == 4
    then some vkill
    else if value == 5
    then some veof
    else if value == 6
    then some veol
    else if value == 7
    then some veol2
    else if value == 8
    then some vstart
    else if value == 9
    then some vstop
    else if value == 10
    then some vsusp
    else if value == 11
    then some vdsusp
    else if value == 12
    then some vreprint
    else if value == 13
    then some vwerase
    else if value == 14
    then some vlnext
    else if value == 15
    then some vflush
    else if value == 16
    then some vswitch
    else if value == 17
    then some vstatus
    else if value == 18
    then some vdiscard
    else if value == 30
    then some ignpar
    else if value == 31
    then some parmrk
    else if value == 32
    then some inpck
    else if value == 33
    then some istrip
    else if value == 34
    then some inlcr
    else if value == 35
    then some igncr
    else if value == 36
    then some icrnl
    else if value == 37
    then some iuclc
    else if value == 38
    then some ixon
    else if value == 39
    then some ixany
    else if value == 40
    then some ixoff
    else if value == 41
    then some imaxbel
    else if value == 42
    then some iutf8
    else if value == 50
    then some isig
    else if value == 51
    then some icanon
    else if value == 52
    then some xcase
    else if value == 53
    then some echo
    else if value == 54
    then some echoe
    else if value == 55
    then some echok
    else if value == 56
    then some echonl
    else if value == 57
    then some noflsh
    else if value == 58
    then some tostop
    else if value == 59
    then some iexten
    else if value == 60
    then some echoctl
    else if value == 61
    then some echoke
    else if value == 62
    then some pendin
    else if value == 70
    then some opost
    else if value == 71
    then some olcuc
    else if value == 72
    then some onlcr
    else if value == 73
    then some ocrnl
    else if value == 74
    then some onocr
    else if value == 75
    then some onlret
    else if value == 90
    then some cs7
    else if value == 91
    then some cs8
    else if value == 92
    then some parenb
    else if value == 93
    then some parodd
    else if value == 128
    then some tty_op_ispeed
    else if value == 129
    then some tty_op_ospeed
    else none

unfoldable pub is_special_char : TtyOpcode → Bool
unfolding as_u8
is_special_char op = leb 1 (as_u8 op) && leb (as_u8 op) 18

unfoldable pub is_input_flag : TtyOpcode → Bool
unfolding as_u8
is_input_flag op = leb 30 (as_u8 op) && leb (as_u8 op) 42

unfoldable pub is_local_flag : TtyOpcode → Bool
unfolding as_u8
is_local_flag op = leb 50 (as_u8 op) && leb (as_u8 op) 62

unfoldable pub is_output_flag : TtyOpcode → Bool
unfolding as_u8
is_output_flag op = leb 70 (as_u8 op) && leb (as_u8 op) 75

unfoldable pub is_control_flag : TtyOpcode → Bool
unfolding as_u8
is_control_flag op = leb 90 (as_u8 op) && leb (as_u8 op) 93

unfoldable pub is_speed : TtyOpcode → Bool
unfolding as_u8
is_speed op = leb 128 (as_u8 op) && leb (as_u8 op) 129
