-- ===== src/Programs/Switch/Fourth.antt =====
-- bench/shootout-src/switch.c, cases 2100 to 2799: the number that each case takes `^=` with.
use zwasm.Base.{ℕ, List, [], ◌∷◌}

abbrev pub cases_2100 : List ℕ
cases_2100 =
    1100 ∷ 1122 ∷ 1537 ∷ 3711 ∷ 702 ∷ 2943 ∷ 1693 ∷ 876 ∷ 4041 ∷ 412 ∷ 222 ∷ 2662 ∷ 3212 ∷ 2013
    ∷ 839 ∷ 2735 ∷ 32 ∷ 815 ∷ 2368 ∷ 416 ∷ 95 ∷ 4083 ∷ 1674 ∷ 231 ∷ 578 ∷ 3920 ∷ 625 ∷ 3954 ∷ 0
    ∷ 1456 ∷ 601 ∷ 2203 ∷ 3490 ∷ 3765 ∷ 1225 ∷ 2760 ∷ 1035 ∷ 3955 ∷ 1389 ∷ 1266 ∷ 342 ∷ 2969 ∷ 1095
    ∷ 139 ∷ 3142 ∷ 3696 ∷ 2210 ∷ 1785 ∷ 3495 ∷ 329 ∷ []

abbrev pub cases_2150 : List ℕ
cases_2150 =
    1203 ∷ 3785 ∷ 469 ∷ 3305 ∷ 2486 ∷ 2127 ∷ 1535 ∷ 3524 ∷ 1097 ∷ 3660 ∷ 2384 ∷ 863 ∷ 3241 ∷ 1397
    ∷ 3454 ∷ 1149 ∷ 4033 ∷ 1282 ∷ 15 ∷ 3489 ∷ 1720 ∷ 449 ∷ 3560 ∷ 1247 ∷ 4047 ∷ 2684 ∷ 1025 ∷ 1494
    ∷ 1200 ∷ 2691 ∷ 700 ∷ 3904 ∷ 3804 ∷ 1668 ∷ 3220 ∷ 3582 ∷ 1829 ∷ 937 ∷ 2030 ∷ 3543 ∷ 3683 ∷ 984
    ∷ 219 ∷ 1301 ∷ 3522 ∷ 2182 ∷ 1651 ∷ 3754 ∷ 2481 ∷ 966 ∷ []

abbrev pub cases_2200 : List ℕ
cases_2200 =
    3443 ∷ 2565 ∷ 3704 ∷ 1478 ∷ 3991 ∷ 1172 ∷ 3078 ∷ 1536 ∷ 296 ∷ 2795 ∷ 1900 ∷ 4017 ∷ 2693 ∷ 1313
    ∷ 1272 ∷ 3866 ∷ 570 ∷ 1661 ∷ 2513 ∷ 593 ∷ 713 ∷ 1299 ∷ 2427 ∷ 2508 ∷ 2774 ∷ 2488 ∷ 543 ∷ 1504
    ∷ 2580 ∷ 1068 ∷ 1734 ∷ 2859 ∷ 1861 ∷ 569 ∷ 1542 ∷ 1255 ∷ 2351 ∷ 1725 ∷ 1605 ∷ 1545 ∷ 2102 ∷ 3221
    ∷ 710 ∷ 2166 ∷ 2537 ∷ 2762 ∷ 3770 ∷ 2154 ∷ 2365 ∷ 1154 ∷ []

abbrev pub cases_2250 : List ℕ
cases_2250 =
    3597 ∷ 3057 ∷ 1180 ∷ 3412 ∷ 738 ∷ 3072 ∷ 3536 ∷ 1085 ∷ 1632 ∷ 2911 ∷ 1047 ∷ 722 ∷ 3700 ∷ 3989
    ∷ 2238 ∷ 36 ∷ 628 ∷ 2472 ∷ 1467 ∷ 929 ∷ 3329 ∷ 1415 ∷ 724 ∷ 168 ∷ 1500 ∷ 2702 ∷ 155 ∷ 3390
    ∷ 3334 ∷ 418 ∷ 1962 ∷ 1778 ∷ 2256 ∷ 2224 ∷ 3507 ∷ 3286 ∷ 2244 ∷ 3332 ∷ 1379 ∷ 38 ∷ 2714 ∷ 3534
    ∷ 4087 ∷ 403 ∷ 1608 ∷ 3272 ∷ 2409 ∷ 2003 ∷ 3116 ∷ 1186 ∷ []

abbrev pub cases_2300 : List ℕ
cases_2300 =
    2671 ∷ 1197 ∷ 2756 ∷ 2035 ∷ 147 ∷ 2453 ∷ 1386 ∷ 1195 ∷ 833 ∷ 3729 ∷ 2096 ∷ 4086 ∷ 3453 ∷ 2150
    ∷ 901 ∷ 3693 ∷ 2776 ∷ 2326 ∷ 315 ∷ 3140 ∷ 302 ∷ 174 ∷ 1464 ∷ 2918 ∷ 3175 ∷ 3161 ∷ 1368 ∷ 3368
    ∷ 1631 ∷ 658 ∷ 1691 ∷ 2452 ∷ 160 ∷ 2941 ∷ 1511 ∷ 3135 ∷ 1880 ∷ 926 ∷ 2673 ∷ 3214 ∷ 2081 ∷ 539
    ∷ 2066 ∷ 2688 ∷ 1374 ∷ 581 ∷ 2136 ∷ 3473 ∷ 3702 ∷ 1325 ∷ []

abbrev pub cases_2350 : List ℕ
cases_2350 =
    3914 ∷ 79 ∷ 175 ∷ 319 ∷ 3435 ∷ 1145 ∷ 2652 ∷ 3780 ∷ 4079 ∷ 2007 ∷ 2539 ∷ 2730 ∷ 192 ∷ 1506 ∷ 751
    ∷ 248 ∷ 2390 ∷ 1460 ∷ 1612 ∷ 441 ∷ 2255 ∷ 1139 ∷ 1307 ∷ 2498 ∷ 637 ∷ 1684 ∷ 763 ∷ 2273 ∷ 2616
    ∷ 2364 ∷ 2619 ∷ 2813 ∷ 2758 ∷ 3844 ∷ 45 ∷ 3397 ∷ 189 ∷ 3502 ∷ 914 ∷ 3964 ∷ 1387 ∷ 209 ∷ 2955
    ∷ 1532 ∷ 2440 ∷ 1913 ∷ 2567 ∷ 2285 ∷ 2924 ∷ 3895 ∷ []

abbrev pub cases_2400 : List ℕ
cases_2400 =
    1284 ∷ 690 ∷ 3905 ∷ 1999 ∷ 2423 ∷ 2602 ∷ 2505 ∷ 775 ∷ 184 ∷ 2290 ∷ 2414 ∷ 22 ∷ 1367 ∷ 684 ∷ 2171
    ∷ 2441 ∷ 3889 ∷ 3752 ∷ 3690 ∷ 1551 ∷ 31 ∷ 1742 ∷ 3697 ∷ 3229 ∷ 286 ∷ 2929 ∷ 859 ∷ 2164 ∷ 2445
    ∷ 649 ∷ 1488 ∷ 358 ∷ 1957 ∷ 2103 ∷ 295 ∷ 1827 ∷ 2118 ∷ 1093 ∷ 3104 ∷ 7 ∷ 1076 ∷ 528 ∷ 1757 ∷ 105
    ∷ 161 ∷ 292 ∷ 991 ∷ 211 ∷ 568 ∷ 4008 ∷ []

abbrev pub cases_2450 : List ℕ
cases_2450 =
    616 ∷ 3062 ∷ 3375 ∷ 1568 ∷ 812 ∷ 2424 ∷ 2200 ∷ 2328 ∷ 157 ∷ 379 ∷ 1017 ∷ 3680 ∷ 1687 ∷ 2135
    ∷ 419 ∷ 3876 ∷ 737 ∷ 43 ∷ 2584 ∷ 3468 ∷ 2020 ∷ 1167 ∷ 2387 ∷ 3344 ∷ 537 ∷ 3439 ∷ 1395 ∷ 3854
    ∷ 3347 ∷ 2737 ∷ 1789 ∷ 2298 ∷ 3922 ∷ 404 ∷ 3298 ∷ 3326 ∷ 2063 ∷ 3982 ∷ 3588 ∷ 2722 ∷ 2179 ∷ 3374
    ∷ 3789 ∷ 1596 ∷ 2352 ∷ 2950 ∷ 99 ∷ 3331 ∷ 237 ∷ 2012 ∷ []

abbrev pub cases_2500 : List ℕ
cases_2500 =
    2211 ∷ 2700 ∷ 2411 ∷ 3576 ∷ 3923 ∷ 2080 ∷ 1256 ∷ 2573 ∷ 2998 ∷ 1501 ∷ 3054 ∷ 1240 ∷ 1055 ∷ 3356
    ∷ 1001 ∷ 1587 ∷ 3342 ∷ 3773 ∷ 3442 ∷ 1000 ∷ 44 ∷ 1184 ∷ 2857 ∷ 2220 ∷ 2740 ∷ 908 ∷ 1961 ∷ 4073
    ∷ 309 ∷ 4029 ∷ 1768 ∷ 3999 ∷ 1609 ∷ 422 ∷ 2944 ∷ 2283 ∷ 920 ∷ 2295 ∷ 2489 ∷ 3046 ∷ 1718 ∷ 3631
    ∷ 3488 ∷ 823 ∷ 2090 ∷ 2324 ∷ 1230 ∷ 1775 ∷ 4045 ∷ 886 ∷ []

abbrev pub cases_2550 : List ℕ
cases_2550 =
    3565 ∷ 3628 ∷ 2589 ∷ 2048 ∷ 2348 ∷ 600 ∷ 2663 ∷ 3137 ∷ 1109 ∷ 369 ∷ 3321 ∷ 2831 ∷ 1233 ∷ 2639
    ∷ 3596 ∷ 30 ∷ 3191 ∷ 2307 ∷ 1833 ∷ 3131 ∷ 3762 ∷ 3966 ∷ 3747 ∷ 516 ∷ 489 ∷ 2880 ∷ 2194 ∷ 3384
    ∷ 4048 ∷ 781 ∷ 2699 ∷ 3485 ∷ 1531 ∷ 398 ∷ 2613 ∷ 1015 ∷ 894 ∷ 3400 ∷ 2775 ∷ 321 ∷ 3656 ∷ 3836
    ∷ 1398 ∷ 288 ∷ 2289 ∷ 2226 ∷ 278 ∷ 3218 ∷ 2681 ∷ 2803 ∷ []

abbrev pub cases_2600 : List ℕ
cases_2600 =
    3595 ∷ 1696 ∷ 2079 ∷ 129 ∷ 1898 ∷ 2874 ∷ 84 ∷ 258 ∷ 1840 ∷ 336 ∷ 1656 ∷ 3779 ∷ 266 ∷ 1171 ∷ 2739
    ∷ 3666 ∷ 1044 ∷ 240 ∷ 385 ∷ 3063 ∷ 973 ∷ 3407 ∷ 4084 ∷ 1700 ∷ 2560 ∷ 2282 ∷ 1327 ∷ 617 ∷ 2538
    ∷ 3207 ∷ 3842 ∷ 311 ∷ 2126 ∷ 3004 ∷ 2980 ∷ 2576 ∷ 2536 ∷ 1418 ∷ 3549 ∷ 3328 ∷ 1826 ∷ 654 ∷ 1738
    ∷ 1457 ∷ 3915 ∷ 46 ∷ 818 ∷ 3385 ∷ 1096 ∷ 2107 ∷ []

abbrev pub cases_2650 : List ℕ
cases_2650 =
    62 ∷ 958 ∷ 4015 ∷ 2341 ∷ 1853 ∷ 202 ∷ 2997 ∷ 2369 ∷ 650 ∷ 1922 ∷ 1619 ∷ 3647 ∷ 3504 ∷ 1113
    ∷ 1437 ∷ 2992 ∷ 2398 ∷ 1012 ∷ 3255 ∷ 381 ∷ 3782 ∷ 3746 ∷ 2753 ∷ 3835 ∷ 3734 ∷ 3969 ∷ 1795 ∷ 3981
    ∷ 1486 ∷ 728 ∷ 1739 ∷ 2123 ∷ 2937 ∷ 2410 ∷ 1837 ∷ 1231 ∷ 1314 ∷ 2840 ∷ 3456 ∷ 391 ∷ 2975 ∷ 573
    ∷ 128 ∷ 1453 ∷ 1512 ∷ 93 ∷ 1151 ∷ 2689 ∷ 3444 ∷ 3377 ∷ []

abbrev pub cases_2700 : List ℕ
cases_2700 =
    2316 ∷ 3475 ∷ 718 ∷ 2259 ∷ 3101 ∷ 424 ∷ 3233 ∷ 1815 ∷ 4022 ∷ 3857 ∷ 1251 ∷ 401 ∷ 3243 ∷ 857
    ∷ 3910 ∷ 1590 ∷ 1357 ∷ 3463 ∷ 2167 ∷ 1667 ∷ 1205 ∷ 3225 ∷ 2808 ∷ 665 ∷ 1519 ∷ 885 ∷ 76 ∷ 687
    ∷ 551 ∷ 2672 ∷ 1858 ∷ 3577 ∷ 4068 ∷ 1305 ∷ 1353 ∷ 1655 ∷ 3027 ∷ 1355 ∷ 3792 ∷ 3810 ∷ 4005 ∷ 3001
    ∷ 40 ∷ 808 ∷ 1845 ∷ 3282 ∷ 1788 ∷ 3614 ∷ 61 ∷ 3572 ∷ []

abbrev pub cases_2750 : List ℕ
cases_2750 =
    3129 ∷ 1666 ∷ 3426 ∷ 3611 ∷ 2233 ∷ 3927 ∷ 2569 ∷ 1703 ∷ 3352 ∷ 298 ∷ 1094 ∷ 343 ∷ 2443 ∷ 769
    ∷ 1804 ∷ 2353 ∷ 2392 ∷ 2417 ∷ 2023 ∷ 2670 ∷ 1323 ∷ 467 ∷ 3801 ∷ 1782 ∷ 3087 ∷ 3674 ∷ 1756 ∷ 1737
    ∷ 2710 ∷ 1908 ∷ 2319 ∷ 1383 ∷ 3625 ∷ 1051 ∷ 1193 ∷ 151 ∷ 1792 ∷ 3065 ∷ 2545 ∷ 1876 ∷ 1776 ∷ 1934
    ∷ 3058 ∷ 2257 ∷ 2333 ∷ 2356 ∷ 413 ∷ 3021 ∷ 29 ∷ 2325 ∷ []
