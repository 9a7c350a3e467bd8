-- ===== src/Programs/Switch/Fifth.antt =====
-- bench/shootout-src/switch.c, cases 2800 to 3499: the number that each case takes `^=` with.
use zwasm.Base.{ℕ, List, [], ◌∷◌}

abbrev pub cases_2800 : List ℕ
cases_2800 =
    727 ∷ 2331 ∷ 317 ∷ 1518 ∷ 565 ∷ 921 ∷ 2192 ∷ 1573 ∷ 2971 ∷ 1866 ∷ 4053 ∷ 478 ∷ 3043 ∷ 1152
    ∷ 1078 ∷ 867 ∷ 1758 ∷ 3587 ∷ 2041 ∷ 3064 ∷ 3306 ∷ 131 ∷ 1553 ∷ 4032 ∷ 3941 ∷ 241 ∷ 1214 ∷ 2732
    ∷ 923 ∷ 2145 ∷ 2712 ∷ 1176 ∷ 2208 ∷ 1173 ∷ 3000 ∷ 3300 ∷ 1014 ∷ 2468 ∷ 410 ∷ 1181 ∷ 1749 ∷ 2547
    ∷ 3460 ∷ 2828 ∷ 3105 ∷ 66 ∷ 1419 ∷ 641 ∷ 2550 ∷ 2570 ∷ []

abbrev pub cases_2850 : List ℕ
cases_2850 =
    2585 ∷ 483 ∷ 1462 ∷ 1527 ∷ 2168 ∷ 3701 ∷ 675 ∷ 2128 ∷ 3424 ∷ 1805 ∷ 1721 ∷ 623 ∷ 3909 ∷ 3760
    ∷ 1817 ∷ 473 ∷ 366 ∷ 562 ∷ 2195 ∷ 706 ∷ 273 ∷ 673 ∷ 262 ∷ 2053 ∷ 4077 ∷ 1583 ∷ 3337 ∷ 1892
    ∷ 2186 ∷ 2028 ∷ 2432 ∷ 572 ∷ 2635 ∷ 1940 ∷ 595 ∷ 2011 ∷ 739 ∷ 2349 ∷ 1636 ∷ 3309 ∷ 152 ∷ 481
    ∷ 1002 ∷ 3686 ∷ 1112 ∷ 3714 ∷ 1491 ∷ 3673 ∷ 3174 ∷ 3245 ∷ []

abbrev pub cases_2900 : List ℕ
cases_2900 =
    2610 ∷ 2189 ∷ 94 ∷ 1877 ∷ 1649 ∷ 2799 ∷ 2873 ∷ 3506 ∷ 2899 ∷ 861 ∷ 3280 ∷ 4038 ∷ 3995 ∷ 250
    ∷ 463 ∷ 3173 ∷ 2206 ∷ 3851 ∷ 3343 ∷ 931 ∷ 1560 ∷ 2713 ∷ 3449 ∷ 3281 ∷ 614 ∷ 1995 ∷ 2270 ∷ 2381
    ∷ 3019 ∷ 3532 ∷ 1793 ∷ 3671 ∷ 1118 ∷ 3139 ∷ 42 ∷ 1849 ∷ 1951 ∷ 2065 ∷ 3916 ∷ 1364 ∷ 2357 ∷ 482
    ∷ 2921 ∷ 14 ∷ 2165 ∷ 526 ∷ 1952 ∷ 465 ∷ 2104 ∷ 2905 ∷ []

abbrev pub cases_2950 : List ℕ
cases_2950 =
    3685 ∷ 177 ∷ 2482 ∷ 3948 ∷ 3146 ∷ 1179 ∷ 1434 ∷ 1121 ∷ 2089 ∷ 2223 ∷ 1295 ∷ 3974 ∷ 2245 ∷ 2078
    ∷ 3420 ∷ 2861 ∷ 1477 ∷ 1689 ∷ 2204 ∷ 134 ∷ 930 ∷ 17 ∷ 3091 ∷ 324 ∷ 3645 ∷ 712 ∷ 1490 ∷ 223
    ∷ 3874 ∷ 4078 ∷ 2734 ∷ 896 ∷ 3712 ∷ 1984 ∷ 3055 ∷ 1101 ∷ 2169 ∷ 2757 ∷ 3566 ∷ 1874 ∷ 3082 ∷ 3184
    ∷ 1378 ∷ 3335 ∷ 3227 ∷ 3516 ∷ 510 ∷ 1635 ∷ 2240 ∷ 3967 ∷ []

abbrev pub cases_3000 : List ℕ
cases_3000 =
    232 ∷ 3750 ∷ 1403 ∷ 1610 ∷ 3728 ∷ 3930 ∷ 148 ∷ 1466 ∷ 1830 ∷ 1507 ∷ 3944 ∷ 590 ∷ 3297 ∷ 3090
    ∷ 549 ∷ 514 ∷ 3482 ∷ 1 ∷ 3757 ∷ 28 ∷ 1425 ∷ 390 ∷ 1606 ∷ 2530 ∷ 2528 ∷ 556 ∷ 3500 ∷ 2140 ∷ 3408
    ∷ 2620 ∷ 1385 ∷ 3023 ∷ 906 ∷ 1911 ∷ 3256 ∷ 2973 ∷ 2826 ∷ 3013 ∷ 2531 ∷ 3805 ∷ 388 ∷ 380 ∷ 3026
    ∷ 304 ∷ 2744 ∷ 3195 ∷ 1394 ∷ 2300 ∷ 3381 ∷ 522 ∷ []

abbrev pub cases_3050 : List ℕ
cases_3050 =
    1770 ∷ 3290 ∷ 1660 ∷ 3284 ∷ 2363 ∷ 3387 ∷ 1286 ∷ 507 ∷ 2787 ∷ 3601 ∷ 1129 ∷ 3487 ∷ 2625 ∷ 1617
    ∷ 668 ∷ 3830 ∷ 3555 ∷ 2864 ∷ 1890 ∷ 3359 ∷ 1007 ∷ 360 ∷ 2228 ∷ 221 ∷ 1326 ∷ 3621 ∷ 1253 ∷ 2529
    ∷ 2070 ∷ 208 ∷ 389 ∷ 2802 ∷ 183 ∷ 3458 ∷ 2609 ∷ 2116 ∷ 3039 ∷ 3461 ∷ 2822 ∷ 1081 ∷ 3320 ∷ 520
    ∷ 3979 ∷ 3167 ∷ 3547 ∷ 1868 ∷ 2359 ∷ 125 ∷ 1835 ∷ 1343 ∷ []

abbrev pub cases_3100 : List ℕ
cases_3100 =
    2278 ∷ 1764 ∷ 988 ∷ 3086 ∷ 1678 ∷ 2772 ∷ 742 ∷ 2122 ∷ 169 ∷ 3323 ∷ 1559 ∷ 707 ∷ 102 ∷ 2638
    ∷ 3567 ∷ 1087 ∷ 1698 ∷ 3120 ∷ 326 ∷ 3661 ∷ 3703 ∷ 626 ∷ 47 ∷ 3287 ∷ 1638 ∷ 3040 ∷ 1688 ∷ 2106
    ∷ 3276 ∷ 1800 ∷ 1881 ∷ 69 ∷ 1098 ∷ 3620 ∷ 3059 ∷ 1482 ∷ 3633 ∷ 1918 ∷ 3211 ∷ 114 ∷ 1980 ∷ 592
    ∷ 786 ∷ 2657 ∷ 778 ∷ 946 ∷ 363 ∷ 3589 ∷ 1209 ∷ 1759 ∷ []

abbrev pub cases_3150 : List ℕ
cases_3150 =
    477 ∷ 662 ∷ 2347 ∷ 2733 ∷ 1420 ∷ 608 ∷ 428 ∷ 3769 ∷ 4026 ∷ 3029 ∷ 1801 ∷ 2812 ∷ 1182 ∷ 1783
    ∷ 1057 ∷ 392 ∷ 3638 ∷ 2101 ∷ 2311 ∷ 3099 ∷ 2431 ∷ 598 ∷ 1554 ∷ 328 ∷ 3304 ∷ 2100 ∷ 126 ∷ 2903
    ∷ 2872 ∷ 2782 ∷ 693 ∷ 2676 ∷ 3509 ∷ 3606 ∷ 2511 ∷ 4028 ∷ 3125 ∷ 719 ∷ 1947 ∷ 1198 ∷ 3119 ∷ 3501
    ∷ 3715 ∷ 236 ∷ 2945 ∷ 3156 ∷ 1930 ∷ 3230 ∷ 2981 ∷ 1614 ∷ []

abbrev pub cases_3200 : List ℕ
cases_3200 =
    2380 ∷ 89 ∷ 197 ∷ 2379 ∷ 3678 ∷ 2629 ∷ 3939 ∷ 445 ∷ 2557 ∷ 3176 ∷ 1939 ∷ 756 ∷ 2494 ∷ 2679 ∷ 681
    ∷ 1921 ∷ 1990 ∷ 754 ∷ 2544 ∷ 793 ∷ 3263 ∷ 2473 ∷ 50 ∷ 864 ∷ 3025 ∷ 1594 ∷ 842 ∷ 2807 ∷ 1882
    ∷ 3585 ∷ 249 ∷ 365 ∷ 965 ∷ 1942 ∷ 2587 ∷ 1904 ∷ 1633 ∷ 1577 ∷ 2829 ∷ 1859 ∷ 3580 ∷ 3756 ∷ 367
    ∷ 2059 ∷ 96 ∷ 3010 ∷ 1733 ∷ 1681 ∷ 2603 ∷ 644 ∷ []

abbrev pub cases_3250 : List ℕ
cases_3250 =
    3722 ∷ 3095 ∷ 3118 ∷ 2810 ∷ 1846 ∷ 799 ∷ 3494 ∷ 1356 ∷ 2112 ∷ 1854 ∷ 1850 ∷ 1992 ∷ 3136 ∷ 2520
    ∷ 2085 ∷ 1855 ∷ 3160 ∷ 1711 ∷ 1254 ∷ 1028 ∷ 3559 ∷ 431 ∷ 3380 ∷ 2110 ∷ 2875 ∷ 2986 ∷ 1516 ∷ 3036
    ∷ 1825 ∷ 2957 ∷ 3986 ∷ 2057 ∷ 3649 ∷ 74 ∷ 1321 ∷ 852 ∷ 2558 ∷ 2642 ∷ 179 ∷ 1269 ∷ 1970 ∷ 550
    ∷ 3806 ∷ 1102 ∷ 579 ∷ 2109 ∷ 1613 ∷ 744 ∷ 3953 ∷ 1413 ∷ []

abbrev pub cases_3300 : List ℕ
cases_3300 =
    3438 ∷ 1292 ∷ 216 ∷ 3799 ∷ 1293 ∷ 2061 ∷ 3486 ∷ 542 ∷ 3897 ∷ 932 ∷ 2088 ∷ 2485 ∷ 1761 ∷ 1120
    ∷ 1810 ∷ 3831 ∷ 1629 ∷ 2076 ∷ 1060 ∷ 1005 ∷ 1135 ∷ 1059 ∷ 2327 ∷ 149 ∷ 3987 ∷ 185 ∷ 3362 ∷ 256
    ∷ 4042 ∷ 3708 ∷ 760 ∷ 1202 ∷ 1769 ∷ 1694 ∷ 488 ∷ 2394 ∷ 2332 ∷ 3069 ∷ 37 ∷ 887 ∷ 2779 ∷ 1417
    ∷ 4089 ∷ 331 ∷ 1026 ∷ 1216 ∷ 1581 ∷ 3497 ∷ 2746 ∷ 2045 ∷ []

abbrev pub cases_3350 : List ℕ
cases_3350 =
    1712 ∷ 78 ∷ 3615 ∷ 1454 ∷ 1444 ∷ 3393 ∷ 1699 ∷ 2761 ∷ 621 ∷ 195 ∷ 838 ∷ 2919 ∷ 820 ∷ 949 ∷ 2797
    ∷ 325 ∷ 2865 ∷ 3491 ∷ 213 ∷ 2491 ∷ 2286 ∷ 3182 ∷ 1534 ∷ 2630 ∷ 701 ∷ 841 ∷ 3354 ∷ 1306 ∷ 1450
    ∷ 783 ∷ 2581 ∷ 2071 ∷ 2252 ∷ 2597 ∷ 1498 ∷ 4065 ∷ 1234 ∷ 3035 ∷ 2989 ∷ 952 ∷ 3644 ∷ 3162 ∷ 355
    ∷ 71 ∷ 2643 ∷ 2355 ∷ 2728 ∷ 1137 ∷ 450 ∷ 717 ∷ []

abbrev pub cases_3400 : List ℕ
cases_3400 =
    3710 ∷ 1988 ∷ 230 ∷ 1473 ∷ 4019 ∷ 866 ∷ 2960 ∷ 2848 ∷ 1645 ∷ 3110 ∷ 468 ∷ 64 ∷ 1953 ∷ 3604
    ∷ 2037 ∷ 3896 ∷ 1920 ∷ 912 ∷ 3900 ∷ 495 ∷ 2771 ∷ 115 ∷ 1377 ∷ 88 ∷ 1954 ∷ 3198 ∷ 190 ∷ 2395
    ∷ 2696 ∷ 1008 ∷ 2659 ∷ 1340 ∷ 1997 ∷ 531 ∷ 2149 ∷ 57 ∷ 1883 ∷ 2075 ∷ 2309 ∷ 1971 ∷ 3427 ∷ 2661
    ∷ 1979 ∷ 993 ∷ 2188 ∷ 39 ∷ 2920 ∷ 1475 ∷ 1578 ∷ 3200 ∷ []

abbrev pub cases_3450 : List ℕ
cases_3450 =
    2993 ∷ 3962 ∷ 4050 ∷ 2977 ∷ 180 ∷ 1642 ∷ 3735 ∷ 1335 ∷ 3815 ∷ 1019 ∷ 1676 ∷ 171 ∷ 3554 ∷ 1402
    ∷ 3447 ∷ 2706 ∷ 2215 ∷ 589 ∷ 2966 ∷ 503 ∷ 2449 ∷ 212 ∷ 2134 ∷ 1603 ∷ 1091 ∷ 3913 ∷ 351 ∷ 1412
    ∷ 523 ∷ 3635 ∷ 1064 ∷ 254 ∷ 1099 ∷ 1317 ∷ 3775 ∷ 2087 ∷ 2953 ∷ 758 ∷ 85 ∷ 2177 ∷ 890 ∷ 4070
    ∷ 679 ∷ 3790 ∷ 2729 ∷ 3240 ∷ 1401 ∷ 3234 ∷ 4023 ∷ 2694 ∷ []
