-- ===== src/Constants/Flag.antt =====
-- constants.py, class Flag: the bits of the header's flags.
use hmmp_python_sdk.Base.{ℕ}

abbrev pub request : ℕ
request = 0x01

abbrev pub compression : ℕ
compression = 0x02

abbrev pub backpressure : ℕ
backpressure = 0x04

abbrev pub redirect : ℕ
redirect = 0x08

abbrev pub encrypted : ℕ
encrypted = 0x10

abbrev pub probing : ℕ
probing = 0x40

abbrev pub governance : ℕ
governance = 0x80
