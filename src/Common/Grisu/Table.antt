-- ===== src/Common/Grisu/Table.antt =====
-- common/string.hpp, GetCachedPower: the table of powers of ten.
use tiny_rpc.Prelude.{ℕ, List, [], ◌∷◌}
use tiny_rpc.Prelude.Int.{ℤ, pos, negsuc}

-- `kCachedPowers_F`: the significands of 10 ^ -348, 10 ^ -340, and so on up to 10 ^ 340.
abbrev pub cached_powers_f : List ℕ
cached_powers_f =
    0xfa8fd5a0081c0288 ∷ 0xbaaee17fa23ebf76 ∷ 0x8b16fb203055ac76 ∷ 0xcf42894a5dce35ea
    ∷ 0x9a6bb0aa55653b2d ∷ 0xe61acf033d1a45df ∷ 0xab70fe17c79ac6ca ∷ 0xff77b1fcbebcdc4f
    ∷ 0xbe5691ef416bd60c ∷ 0x8dd01fad907ffc3c ∷ 0xd3515c2831559a83 ∷ 0x9d71ac8fada6c9b5
    ∷ 0xea9c227723ee8bcb ∷ 0xaecc49914078536d ∷ 0x823c12795db6ce57 ∷ 0xc21094364dfb5637
    ∷ 0x9096ea6f3848984f ∷ 0xd77485cb25823ac7 ∷ 0xa086cfcd97bf97f4 ∷ 0xef340a98172aace5
    ∷ 0xb23867fb2a35b28e ∷ 0x84c8d4dfd2c63f3b ∷ 0xc5dd44271ad3cdba ∷ 0x936b9fcebb25c996
    ∷ 0xdbac6c247d62a584 ∷ 0xa3ab66580d5fdaf6 ∷ 0xf3e2f893dec3f126 ∷ 0xb5b5ada8aaff80b8
    ∷ 0x87625f056c7c4a8b ∷ 0xc9bcff6034c13053 ∷ 0x964e858c91ba2655 ∷ 0xdff9772470297ebd
    ∷ 0xa6dfbd9fb8e5b88f ∷ 0xf8a95fcf88747d94 ∷ 0xb94470938fa89bcf ∷ 0x8a08f0f8bf0f156b
    ∷ 0xcdb02555653131b6 ∷ 0x993fe2c6d07b7fac ∷ 0xe45c10c42a2b3b06 ∷ 0xaa242499697392d3
    ∷ 0xfd87b5f28300ca0e ∷ 0xbce5086492111aeb ∷ 0x8cbccc096f5088cc ∷ 0xd1b71758e219652c
    ∷ 0x9c40000000000000 ∷ 0xe8d4a51000000000 ∷ 0xad78ebc5ac620000 ∷ 0x813f3978f8940984
    ∷ 0xc097ce7bc90715b3 ∷ 0x8f7e32ce7bea5c70 ∷ 0xd5d238a4abe98068 ∷ 0x9f4f2726179a2245
    ∷ 0xed63a231d4c4fb27 ∷ 0xb0de65388cc8ada8 ∷ 0x83c7088e1aab65db ∷ 0xc45d1df942711d9a
    ∷ 0x924d692ca61be758 ∷ 0xda01ee641a708dea ∷ 0xa26da3999aef774a ∷ 0xf209787bb47d6b85
    ∷ 0xb454e4a179dd1877 ∷ 0x865b86925b9bc5c2 ∷ 0xc83553c5c8965d3d ∷ 0x952ab45cfa97a0b3
    ∷ 0xde469fbd99a05fe3 ∷ 0xa59bc234db398c25 ∷ 0xf6c69a72a3989f5c ∷ 0xb7dcbf5354e9bece
    ∷ 0x88fcf317f22241e2 ∷ 0xcc20ce9bd35c78a5 ∷ 0x98165af37b2153df ∷ 0xe2a0b5dc971f303a
    ∷ 0xa8d9d1535ce3b396 ∷ 0xfb9b7cd9a4a7443c ∷ 0xbb764c4ca7a44410 ∷ 0x8bab8eefb6409c1a
    ∷ 0xd01fef10a657842c ∷ 0x9b10a4e5e9913129 ∷ 0xe7109bfba19c0c9d ∷ 0xac2820d9623bf429
    ∷ 0x80444b5e7aa7cf85 ∷ 0xbf21e44003acdd2d ∷ 0x8e679c2f5e44ff8f ∷ 0xd433179d9c8cb841
    ∷ 0x9e19db92b4e31ba9 ∷ 0xeb96bf6ebadf77d9 ∷ 0xaf87023b9bf0ee6b ∷ []

-- `kCachedPowers_E`: their binary exponents.
abbrev pub cached_powers_e : List ℤ
cached_powers_e =
    negsuc 1219
    ∷ negsuc 1192
    ∷ negsuc 1165
    ∷ negsuc 1139
    ∷ negsuc 1112
    ∷ negsuc 1086
    ∷ negsuc 1059
    ∷ negsuc 1033
    ∷ negsuc 1006
    ∷ negsuc 979
    ∷ negsuc 953
    ∷ negsuc 926
    ∷ negsuc 900
    ∷ negsuc 873
    ∷ negsuc 846
    ∷ negsuc 820
    ∷ negsuc 793
    ∷ negsuc 767
    ∷ negsuc 740
    ∷ negsuc 714
    ∷ negsuc 687
    ∷ negsuc 660
    ∷ negsuc 634
    ∷ negsuc 607
    ∷ negsuc 581
    ∷ negsuc 554
    ∷ negsuc 528
    ∷ negsuc 501
    ∷ negsuc 474
    ∷ negsuc 448
    ∷ negsuc 421
    ∷ negsuc 395
    ∷ negsuc 368
    ∷ negsuc 342
    ∷ negsuc 315
    ∷ negsuc 288
    ∷ negsuc 262
    ∷ negsuc 235
    ∷ negsuc 209
    ∷ negsuc 182
    ∷ negsuc 156
    ∷ negsuc 129
    ∷ negsuc 102
    ∷ negsuc 76
    ∷ negsuc 49
    ∷ negsuc 23
    ∷ pos 3
    ∷ pos 30
    ∷ pos 56
    ∷ pos 83
    ∷ pos 109
    ∷ pos 136
    ∷ pos 162
    ∷ pos 189
    ∷ pos 216
    ∷ pos 242
    ∷ pos 269
    ∷ pos 295
    ∷ pos 322
    ∷ pos 348
    ∷ pos 375
    ∷ pos 402
    ∷ pos 428
    ∷ pos 455
    ∷ pos 481
    ∷ pos 508
    ∷ pos 534
    ∷ pos 561
    ∷ pos 588
    ∷ pos 614
    ∷ pos 641
    ∷ pos 667
    ∷ pos 694
    ∷ pos 720
    ∷ pos 747
    ∷ pos 774
    ∷ pos 800
    ∷ pos 827
    ∷ pos 853
    ∷ pos 880
    ∷ pos 907
    ∷ pos 933
    ∷ pos 960
    ∷ pos 986
    ∷ pos 1013
    ∷ pos 1039
    ∷ pos 1066
    ∷ []
