-- ===== src/Console/Scancodes.antt =====
-- The scan code tables of kern/console.c. The first entries of a table stand in order, as in the source;
-- those that the source designates by index follow by tests.
use sisop_tps.Prelude.{ℕ, List, [], ◌∷◌, ◌==◌, if◌then◌else◌, get_or}

abbrev pub shift_key : ℕ
shift_key = 0x01

abbrev pub ctl : ℕ
ctl = 0x02

abbrev pub alt : ℕ
alt = 0x04

abbrev pub capslock : ℕ
capslock = 0x08

abbrev pub numlock : ℕ
numlock = 0x10

abbrev pub scrolllock : ℕ
scrolllock = 0x20

abbrev pub e0esc : ℕ
e0esc = 0x40

unfoldable pub shiftcode : ℕ → ℕ
shiftcode data_byte =
    if data_byte == 0x1d
    then ctl
    else if data_byte == 0x2a
    then shift_key
    else if data_byte == 0x36
    then shift_key
    else if data_byte == 0x38
    then alt
    else if data_byte == 0x9d
    then ctl
    else if data_byte == 0xb8
    then alt
    else 0

unfoldable pub togglecode : ℕ → ℕ
togglecode data_byte =
    if data_byte == 0x3a
    then capslock
    else if data_byte == 0x45
    then numlock
    else if data_byte == 0x46
    then scrolllock
    else 0

abbrev normalmap_keys : List ℕ
normalmap_keys =
    0x00 ∷ 0x1b ∷ 0x31 ∷ 0x32 ∷ 0x33 ∷ 0x34 ∷ 0x35 ∷ 0x36 ∷ 0x37 ∷ 0x38 ∷ 0x39 ∷ 0x30 ∷ 0x2d ∷ 0x3d
    ∷ 0x08 ∷ 0x09 ∷ 0x71 ∷ 0x77 ∷ 0x65 ∷ 0x72 ∷ 0x74 ∷ 0x79 ∷ 0x75 ∷ 0x69 ∷ 0x6f ∷ 0x70 ∷ 0x5b
    ∷ 0x5d ∷ 0x0a ∷ 0x00 ∷ 0x61 ∷ 0x73 ∷ 0x64 ∷ 0x66 ∷ 0x67 ∷ 0x68 ∷ 0x6a ∷ 0x6b ∷ 0x6c ∷ 0x3b
    ∷ 0x27 ∷ 0x60 ∷ 0x00 ∷ 0x5c ∷ 0x7a ∷ 0x78 ∷ 0x63 ∷ 0x76 ∷ 0x62 ∷ 0x6e ∷ 0x6d ∷ 0x2c ∷ 0x2e
    ∷ 0x2f ∷ 0x00 ∷ 0x2a ∷ 0x00 ∷ 0x20 ∷ 0x00 ∷ 0x00 ∷ 0x00 ∷ 0x00 ∷ 0x00 ∷ 0x00 ∷ 0x00 ∷ 0x00
    ∷ 0x00 ∷ 0x00 ∷ 0x00 ∷ 0x00 ∷ 0x00 ∷ 0x37 ∷ 0x38 ∷ 0x39 ∷ 0x2d ∷ 0x34 ∷ 0x35 ∷ 0x36 ∷ 0x2b
    ∷ 0x31 ∷ 0x32 ∷ 0x33 ∷ 0x30 ∷ 0x2e ∷ []

-- the designated entries, and `NO` for the rest
unfoldable pub normalmap : ℕ → ℕ
normalmap data_byte =
    if data_byte == 0x9c
    then 0x0a
    else if data_byte == 0xb5
    then 0x2f
    else if data_byte == 0xc7
    then 0xe0
    else if data_byte == 0xc8
    then 0xe2
    else if data_byte == 0xc9
    then 0xe6
    else if data_byte == 0xcb
    then 0xe4
    else if data_byte == 0xcd
    then 0xe5
    else if data_byte == 0xcf
    then 0xe1
    else if data_byte == 0xd0
    then 0xe3
    else if data_byte == 0xd1
    then 0xe7
    else if data_byte == 0xd2
    then 0xe8
    else if data_byte == 0xd3
    then 0xe9
    else get_or normalmap_keys data_byte 0

abbrev shiftmap_keys : List ℕ
shiftmap_keys =
    0x00 ∷ 0x1b ∷ 0x21 ∷ 0x40 ∷ 0x23 ∷ 0x24 ∷ 0x25 ∷ 0x5e ∷ 0x26 ∷ 0x2a ∷ 0x28 ∷ 0x29 ∷ 0x5f ∷ 0x2b
    ∷ 0x08 ∷ 0x09 ∷ 0x51 ∷ 0x57 ∷ 0x45 ∷ 0x52 ∷ 0x54 ∷ 0x59 ∷ 0x55 ∷ 0x49 ∷ 0x4f ∷ 0x50 ∷ 0x7b
    ∷ 0x7d ∷ 0x0a ∷ 0x00 ∷ 0x41 ∷ 0x53 ∷ 0x44 ∷ 0x46 ∷ 0x47 ∷ 0x48 ∷ 0x4a ∷ 0x4b ∷ 0x4c ∷ 0x3a
    ∷ 0x22 ∷ 0x7e ∷ 0x00 ∷ 0x7c ∷ 0x5a ∷ 0x58 ∷ 0x43 ∷ 0x56 ∷ 0x42 ∷ 0x4e ∷ 0x4d ∷ 0x3c ∷ 0x3e
    ∷ 0x3f ∷ 0x00 ∷ 0x2a ∷ 0x00 ∷ 0x20 ∷ 0x00 ∷ 0x00 ∷ 0x00 ∷ 0x00 ∷ 0x00 ∷ 0x00 ∷ 0x00 ∷ 0x00
    ∷ 0x00 ∷ 0x00 ∷ 0x00 ∷ 0x00 ∷ 0x00 ∷ 0x37 ∷ 0x38 ∷ 0x39 ∷ 0x2d ∷ 0x34 ∷ 0x35 ∷ 0x36 ∷ 0x2b
    ∷ 0x31 ∷ 0x32 ∷ 0x33 ∷ 0x30 ∷ 0x2e ∷ []

-- the designated entries, and `NO` for the rest
unfoldable pub shiftmap : ℕ → ℕ
shiftmap data_byte =
    if data_byte == 0x9c
    then 0x0a
    else if data_byte == 0xb5
    then 0x2f
    else if data_byte == 0xc7
    then 0xe0
    else if data_byte == 0xc8
    then 0xe2
    else if data_byte == 0xc9
    then 0xe6
    else if data_byte == 0xcb
    then 0xe4
    else if data_byte == 0xcd
    then 0xe5
    else if data_byte == 0xcf
    then 0xe1
    else if data_byte == 0xd0
    then 0xe3
    else if data_byte == 0xd1
    then 0xe7
    else if data_byte == 0xd2
    then 0xe8
    else if data_byte == 0xd3
    then 0xe9
    else get_or shiftmap_keys data_byte 0

abbrev ctlmap_keys : List ℕ
ctlmap_keys =
    0x00 ∷ 0x00 ∷ 0x00 ∷ 0x00 ∷ 0x00 ∷ 0x00 ∷ 0x00 ∷ 0x00 ∷ 0x00 ∷ 0x00 ∷ 0x00 ∷ 0x00 ∷ 0x00 ∷ 0x00
    ∷ 0x00 ∷ 0x00 ∷ 0x11 ∷ 0x17 ∷ 0x05 ∷ 0x12 ∷ 0x14 ∷ 0x19 ∷ 0x15 ∷ 0x09 ∷ 0x0f ∷ 0x10 ∷ 0x00
    ∷ 0x00 ∷ 0x0d ∷ 0x00 ∷ 0x01 ∷ 0x13 ∷ 0x04 ∷ 0x06 ∷ 0x07 ∷ 0x08 ∷ 0x0a ∷ 0x0b ∷ 0x0c ∷ 0x00
    ∷ 0x00 ∷ 0x00 ∷ 0x00 ∷ 0x1c ∷ 0x1a ∷ 0x18 ∷ 0x03 ∷ 0x16 ∷ 0x02 ∷ 0x0e ∷ 0x0d ∷ 0x00 ∷ 0x00
    ∷ 0xef ∷ []

-- the designated entries, and `NO` for the rest
unfoldable pub ctlmap : ℕ → ℕ
ctlmap data_byte =
    if data_byte == 0x97
    then 0xe0
    else if data_byte == 0xb5
    then 0xef
    else if data_byte == 0xc8
    then 0xe2
    else if data_byte == 0xc9
    then 0xe6
    else if data_byte == 0xcb
    then 0xe4
    else if data_byte == 0xcd
    then 0xe5
    else if data_byte == 0xcf
    then 0xe1
    else if data_byte == 0xd0
    then 0xe3
    else if data_byte == 0xd1
    then 0xe7
    else if data_byte == 0xd2
    then 0xe8
    else if data_byte == 0xd3
    then 0xe9
    else get_or ctlmap_keys data_byte 0
