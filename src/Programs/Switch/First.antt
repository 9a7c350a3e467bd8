-- ===== src/Programs/Switch/First.antt =====
-- bench/shootout-src/switch.c, cases 0 to 699: the number that each case takes `^=` with.
use zwasm.Base.{ℕ, List, [], ◌∷◌}

abbrev pub cases_0 : List ℕ
cases_0 =
    399 ∷ 694 ∷ 3492 ∷ 178 ∷ 2502 ∷ 3860 ∷ 3571 ∷ 2405 ∷ 1111 ∷ 3855 ∷ 1320 ∷ 60 ∷ 3924 ∷ 848 ∷ 3873
    ∷ 3852 ∷ 1670 ∷ 2344 ∷ 3258 ∷ 1308 ∷ 2959 ∷ 224 ∷ 3613 ∷ 2838 ∷ 1722 ∷ 1429 ∷ 3521 ∷ 2501 ∷ 4006
    ∷ 2836 ∷ 4009 ∷ 460 ∷ 1458 ∷ 862 ∷ 1143 ∷ 2785 ∷ 3637 ∷ 3391 ∷ 2094 ∷ 2534 ∷ 474 ∷ 2521 ∷ 2458
    ∷ 3871 ∷ 400 ∷ 3992 ∷ 2251 ∷ 153 ∷ 1280 ∷ 341 ∷ []

abbrev pub cases_50 : List ℕ
cases_50 =
    3709 ∷ 420 ∷ 911 ∷ 247 ∷ 2019 ∷ 748 ∷ 1510 ∷ 1004 ∷ 339 ∷ 3011 ∷ 162 ∷ 1042 ∷ 2650 ∷ 4095 ∷ 3883
    ∷ 1806 ∷ 2308 ∷ 2721 ∷ 725 ∷ 3015 ∷ 303 ∷ 2337 ∷ 1381 ∷ 1736 ∷ 1697 ∷ 1022 ∷ 986 ∷ 900 ∷ 1319
    ∷ 1888 ∷ 2474 ∷ 3478 ∷ 853 ∷ 3467 ∷ 1639 ∷ 2867 ∷ 2667 ∷ 172 ∷ 345 ∷ 3386 ∷ 2749 ∷ 1630 ∷ 2719
    ∷ 3636 ∷ 2129 ∷ 3470 ∷ 271 ∷ 158 ∷ 1226 ∷ 200 ∷ []

abbrev pub cases_100 : List ℕ
cases_100 =
    828 ∷ 2902 ∷ 3740 ∷ 446 ∷ 3629 ∷ 2213 ∷ 308 ∷ 146 ∷ 3998 ∷ 1264 ∷ 3929 ∷ 206 ∷ 3293 ∷ 2460 ∷ 370
    ∷ 2469 ∷ 2196 ∷ 2416 ∷ 1388 ∷ 682 ∷ 3192 ∷ 207 ∷ 1285 ∷ 1302 ∷ 3181 ∷ 2917 ∷ 1601 ∷ 1502 ∷ 2399
    ∷ 2767 ∷ 361 ∷ 374 ∷ 1650 ∷ 3471 ∷ 1128 ∷ 3441 ∷ 868 ∷ 2607 ∷ 2577 ∷ 4012 ∷ 981 ∷ 1471 ∷ 745
    ∷ 3716 ∷ 968 ∷ 493 ∷ 2374 ∷ 2478 ∷ 3340 ∷ 154 ∷ []

abbrev pub cases_150 : List ℕ
cases_150 =
    1347 ∷ 3077 ∷ 689 ∷ 2723 ∷ 3691 ∷ 3451 ∷ 3410 ∷ 4056 ∷ 2894 ∷ 1484 ∷ 2000 ∷ 1424 ∷ 2459 ∷ 2260
    ∷ 3518 ∷ 1439 ∷ 3527 ∷ 188 ∷ 3231 ∷ 1981 ∷ 953 ∷ 3872 ∷ 2130 ∷ 83 ∷ 65 ∷ 534 ∷ 2895 ∷ 1433
    ∷ 1552 ∷ 1165 ∷ 1229 ∷ 1049 ∷ 3646 ∷ 1544 ∷ 1125 ∷ 2484 ∷ 588 ∷ 1528 ∷ 1142 ∷ 3066 ∷ 774 ∷ 461
    ∷ 3870 ∷ 1211 ∷ 3994 ∷ 753 ∷ 357 ∷ 395 ∷ 1682 ∷ 829 ∷ []

abbrev pub cases_200 : List ℕ
cases_200 =
    3089 ∷ 3222 ∷ 3975 ∷ 1731 ∷ 3415 ∷ 2430 ∷ 1213 ∷ 4003 ∷ 784 ∷ 253 ∷ 3624 ∷ 898 ∷ 3433 ∷ 2745
    ∷ 323 ∷ 764 ∷ 2199 ∷ 3360 ∷ 2209 ∷ 1322 ∷ 1426 ∷ 3824 ∷ 141 ∷ 1556 ∷ 2860 ∷ 3777 ∷ 1029 ∷ 1073
    ∷ 874 ∷ 883 ∷ 107 ∷ 3877 ∷ 313 ∷ 354 ∷ 1956 ∷ 1677 ∷ 545 ∷ 888 ∷ 1704 ∷ 3369 ∷ 2291 ∷ 3508
    ∷ 3878 ∷ 382 ∷ 3822 ∷ 3134 ∷ 3903 ∷ 844 ∷ 3603 ∷ 3816 ∷ []

abbrev pub cases_250 : List ℕ
cases_250 =
    2908 ∷ 2833 ∷ 2266 ∷ 3724 ∷ 2532 ∷ 307 ∷ 2777 ∷ 239 ∷ 2033 ∷ 1178 ∷ 2073 ∷ 1436 ∷ 1334 ∷ 2855
    ∷ 2877 ∷ 2372 ∷ 2553 ∷ 2885 ∷ 2133 ∷ 2470 ∷ 91 ∷ 4091 ∷ 2519 ∷ 1879 ∷ 3074 ∷ 1541 ∷ 3164 ∷ 150
    ∷ 394 ∷ 1546 ∷ 3807 ∷ 3918 ∷ 1564 ∷ 3599 ∷ 1707 ∷ 2115 ∷ 2006 ∷ 1304 ∷ 982 ∷ 3573 ∷ 5 ∷ 664
    ∷ 1481 ∷ 785 ∷ 3546 ∷ 1873 ∷ 3868 ∷ 67 ∷ 2956 ∷ 3259 ∷ []

abbrev pub cases_300 : List ℕ
cases_300 =
    3848 ∷ 2933 ∷ 1713 ∷ 2578 ∷ 584 ∷ 1766 ∷ 144 ∷ 660 ∷ 2105 ∷ 3605 ∷ 667 ∷ 723 ∷ 3820 ∷ 3346
    ∷ 1329 ∷ 1841 ∷ 3238 ∷ 3796 ∷ 2275 ∷ 904 ∷ 703 ∷ 283 ∷ 2321 ∷ 536 ∷ 2725 ∷ 877 ∷ 3177 ∷ 935
    ∷ 780 ∷ 1902 ∷ 697 ∷ 21 ∷ 1706 ∷ 1592 ∷ 349 ∷ 943 ∷ 2016 ∷ 3768 ∷ 1529 ∷ 560 ∷ 3084 ∷ 2678
    ∷ 1523 ∷ 1089 ∷ 2954 ∷ 2522 ∷ 33 ∷ 1244 ∷ 1811 ∷ 1580 ∷ []

abbrev pub cases_350 : List ℕ
cases_350 =
    2025 ∷ 1274 ∷ 2794 ∷ 2883 ∷ 2254 ∷ 3121 ∷ 1207 ∷ 655 ∷ 2595 ∷ 1130 ∷ 417 ∷ 2261 ∷ 1715 ∷ 434
    ∷ 359 ∷ 53 ∷ 2055 ∷ 1032 ∷ 1053 ∷ 1641 ∷ 2654 ∷ 433 ∷ 1794 ∷ 3440 ∷ 23 ∷ 4 ∷ 2793 ∷ 3733 ∷ 3210
    ∷ 3662 ∷ 3301 ∷ 1396 ∷ 1760 ∷ 3862 ∷ 3993 ∷ 1748 ∷ 3109 ∷ 2239 ∷ 2715 ∷ 527 ∷ 3239 ∷ 587 ∷ 3092
    ∷ 191 ∷ 2435 ∷ 3818 ∷ 3826 ∷ 2231 ∷ 3935 ∷ 1208 ∷ []

abbrev pub cases_400 : List ℕ
cases_400 =
    2018 ∷ 840 ∷ 3248 ∷ 2763 ∷ 3431 ∷ 2846 ∷ 3264 ∷ 959 ∷ 2143 ∷ 2835 ∷ 25 ∷ 3885 ∷ 1189 ∷ 855 ∷ 533
    ∷ 3183 ∷ 2396 ∷ 164 ∷ 1574 ∷ 4021 ∷ 1013 ∷ 2991 ∷ 1187 ∷ 936 ∷ 1441 ∷ 3132 ∷ 3817 ∷ 226 ∷ 4055
    ∷ 3568 ∷ 2634 ∷ 1238 ∷ 1016 ∷ 2172 ∷ 1719 ∷ 1509 ∷ 3178 ∷ 2909 ∷ 1634 ∷ 142 ∷ 752 ∷ 2361 ∷ 3114
    ∷ 3526 ∷ 3296 ∷ 1074 ∷ 1062 ∷ 119 ∷ 2628 ∷ 1965 ∷ []

abbrev pub cases_450 : List ℕ
cases_450 =
    2612 ∷ 2310 ∷ 2904 ∷ 3275 ∷ 1339 ∷ 3358 ∷ 2791 ∷ 12 ∷ 371 ∷ 2038 ∷ 301 ∷ 476 ∷ 1363 ∷ 2084 ∷ 677
    ∷ 1366 ∷ 1955 ∷ 269 ∷ 972 ∷ 2798 ∷ 1406 ∷ 4058 ∷ 2948 ∷ 3250 ∷ 1083 ∷ 1496 ∷ 1847 ∷ 3988 ∷ 699
    ∷ 2982 ∷ 1278 ∷ 3180 ∷ 1910 ∷ 800 ∷ 766 ∷ 3723 ∷ 18 ∷ 3616 ∷ 3350 ∷ 2708 ∷ 3727 ∷ 377 ∷ 3007
    ∷ 2114 ∷ 1116 ∷ 3006 ∷ 1762 ∷ 3395 ∷ 1796 ∷ 2176 ∷ []

abbrev pub cases_500 : List ℕ
cases_500 =
    2227 ∷ 487 ∷ 2778 ∷ 648 ∷ 3717 ∷ 1199 ∷ 3653 ∷ 3682 ∷ 500 ∷ 2845 ∷ 1194 ∷ 586 ∷ 3274 ∷ 229
    ∷ 1382 ∷ 100 ∷ 891 ∷ 3562 ∷ 1287 ∷ 1031 ∷ 2660 ∷ 1856 ∷ 1652 ∷ 3908 ∷ 3247 ∷ 1474 ∷ 3945 ∷ 1352
    ∷ 3030 ∷ 2288 ∷ 3080 ∷ 438 ∷ 1046 ∷ 1033 ∷ 1328 ∷ 1572 ∷ 3188 ∷ 3145 ∷ 2299 ∷ 1831 ∷ 771 ∷ 3363
    ∷ 338 ∷ 3537 ∷ 2726 ∷ 956 ∷ 905 ∷ 2249 ∷ 1218 ∷ 3936 ∷ []

abbrev pub cases_550 : List ℕ
cases_550 =
    672 ∷ 2687 ∷ 3052 ∷ 676 ∷ 504 ∷ 3213 ∷ 826 ∷ 346 ∷ 944 ∷ 1566 ∷ 2340 ∷ 566 ∷ 749 ∷ 3223 ∷ 386
    ∷ 2523 ∷ 3037 ∷ 837 ∷ 1499 ∷ 246 ∷ 2184 ∷ 1072 ∷ 3695 ∷ 97 ∷ 3749 ∷ 1144 ∷ 2622 ∷ 2408 ∷ 831
    ∷ 1994 ∷ 1468 ∷ 3434 ∷ 1030 ∷ 3766 ∷ 3970 ∷ 856 ∷ 2582 ∷ 1267 ∷ 3510 ∷ 3655 ∷ 2142 ∷ 925 ∷ 3774
    ∷ 1336 ∷ 3477 ∷ 3672 ∷ 3422 ∷ 561 ∷ 512 ∷ 3640 ∷ []

abbrev pub cases_600 : List ℕ
cases_600 =
    1683 ∷ 3594 ∷ 372 ∷ 2162 ∷ 2916 ∷ 942 ∷ 2507 ∷ 1003 ∷ 2743 ∷ 2393 ∷ 3067 ∷ 459 ∷ 3619 ∷ 1250
    ∷ 1311 ∷ 934 ∷ 1277 ∷ 4049 ∷ 2990 ∷ 118 ∷ 2269 ∷ 1297 ∷ 3 ∷ 1038 ∷ 289 ∷ 1885 ∷ 2366 ∷ 3423
    ∷ 3076 ∷ 3327 ∷ 1620 ∷ 3829 ∷ 1973 ∷ 902 ∷ 3425 ∷ 583 ∷ 632 ∷ 2563 ∷ 2913 ∷ 3858 ∷ 1056 ∷ 1052
    ∷ 1567 ∷ 653 ∷ 3692 ∷ 3311 ∷ 1616 ∷ 1989 ∷ 963 ∷ 3396 ∷ []

abbrev pub cases_650 : List ℕ
cases_650 =
    1978 ∷ 591 ∷ 2216 ∷ 924 ∷ 194 ∷ 732 ∷ 692 ∷ 2500 ∷ 2336 ∷ 615 ∷ 685 ∷ 41 ∷ 3202 ∷ 553 ∷ 2976
    ∷ 1084 ∷ 1767 ∷ 3759 ∷ 1576 ∷ 3493 ∷ 27 ∷ 1657 ∷ 3257 ∷ 3126 ∷ 3623 ∷ 3742 ∷ 552 ∷ 1294 ∷ 1983
    ∷ 726 ∷ 1797 ∷ 554 ∷ 3867 ∷ 2978 ∷ 2697 ∷ 2429 ∷ 3788 ∷ 618 ∷ 3056 ∷ 2963 ∷ 1303 ∷ 2889 ∷ 2072
    ∷ 4051 ∷ 2456 ∷ 3853 ∷ 1765 ∷ 2050 ∷ 34 ∷ 511 ∷ []
