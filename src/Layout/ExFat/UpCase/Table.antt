-- ===== src/Layout/ExFat/UpCase/Table.antt =====
-- The recommended up-case table of crates/burnout-layout/src/exfat/upcase.rs.
use burnout.Prelude.{ℕ, List, [], ◌∷◌}

unfoldable pub recommended_table : List ℕ
recommended_table =
    0 ∷ 1 ∷ 2 ∷ 3 ∷ 4 ∷ 5 ∷ 6 ∷ 7 ∷ 8 ∷ 9 ∷ 10 ∷ 11 ∷ 12 ∷ 13 ∷ 14 ∷ 15 ∷ 16 ∷ 17 ∷ 18 ∷ 19 ∷ 20
    ∷ 21 ∷ 22 ∷ 23 ∷ 24 ∷ 25 ∷ 26 ∷ 27 ∷ 28 ∷ 29 ∷ 30 ∷ 31 ∷ 32 ∷ 33 ∷ 34 ∷ 35 ∷ 36 ∷ 37 ∷ 38 ∷ 39
    ∷ 40 ∷ 41 ∷ 42 ∷ 43 ∷ 44 ∷ 45 ∷ 46 ∷ 47 ∷ 48 ∷ 49 ∷ 50 ∷ 51 ∷ 52 ∷ 53 ∷ 54 ∷ 55 ∷ 56 ∷ 57 ∷ 58
    ∷ 59 ∷ 60 ∷ 61 ∷ 62 ∷ 63 ∷ 64 ∷ 65 ∷ 66 ∷ 67 ∷ 68 ∷ 69 ∷ 70 ∷ 71 ∷ 72 ∷ 73 ∷ 74 ∷ 75 ∷ 76 ∷ 77
    ∷ 78 ∷ 79 ∷ 80 ∷ 81 ∷ 82 ∷ 83 ∷ 84 ∷ 85 ∷ 86 ∷ 87 ∷ 88 ∷ 89 ∷ 90 ∷ 91 ∷ 92 ∷ 93 ∷ 94 ∷ 95 ∷ 96
    ∷ 65 ∷ 66 ∷ 67 ∷ 68 ∷ 69 ∷ 70 ∷ 71 ∷ 72 ∷ 73 ∷ 74 ∷ 75 ∷ 76 ∷ 77 ∷ 78 ∷ 79 ∷ 80 ∷ 81 ∷ 82 ∷ 83
    ∷ 84 ∷ 85 ∷ 86 ∷ 87 ∷ 88 ∷ 89 ∷ 90 ∷ 123 ∷ 124 ∷ 125 ∷ 126 ∷ 127 ∷ 128 ∷ 129 ∷ 130 ∷ 131 ∷ 132
    ∷ 133 ∷ 134 ∷ 135 ∷ 136 ∷ 137 ∷ 138 ∷ 139 ∷ 140 ∷ 141 ∷ 142 ∷ 143 ∷ 144 ∷ 145 ∷ 146 ∷ 147 ∷ 148
    ∷ 149 ∷ 150 ∷ 151 ∷ 152 ∷ 153 ∷ 154 ∷ 155 ∷ 156 ∷ 157 ∷ 158 ∷ 159 ∷ 160 ∷ 161 ∷ 162 ∷ 163 ∷ 164
    ∷ 165 ∷ 166 ∷ 167 ∷ 168 ∷ 169 ∷ 170 ∷ 171 ∷ 172 ∷ 173 ∷ 174 ∷ 175 ∷ 176 ∷ 177 ∷ 178 ∷ 179 ∷ 180
    ∷ 181 ∷ 182 ∷ 183 ∷ 184 ∷ 185 ∷ 186 ∷ 187 ∷ 188 ∷ 189 ∷ 190 ∷ 191 ∷ 192 ∷ 193 ∷ 194 ∷ 195 ∷ 196
    ∷ 197 ∷ 198 ∷ 199 ∷ 200 ∷ 201 ∷ 202 ∷ 203 ∷ 204 ∷ 205 ∷ 206 ∷ 207 ∷ 208 ∷ 209 ∷ 210 ∷ 211 ∷ 212
    ∷ 213 ∷ 214 ∷ 215 ∷ 216 ∷ 217 ∷ 218 ∷ 219 ∷ 220 ∷ 221 ∷ 222 ∷ 223 ∷ 192 ∷ 193 ∷ 194 ∷ 195 ∷ 196
    ∷ 197 ∷ 198 ∷ 199 ∷ 200 ∷ 201 ∷ 202 ∷ 203 ∷ 204 ∷ 205 ∷ 206 ∷ 207 ∷ 208 ∷ 209 ∷ 210 ∷ 211 ∷ 212
    ∷ 213 ∷ 214 ∷ 247 ∷ 216 ∷ 217 ∷ 218 ∷ 219 ∷ 220 ∷ 221 ∷ 222 ∷ 376 ∷ 256 ∷ 256 ∷ 258 ∷ 258 ∷ 260
    ∷ 260 ∷ 262 ∷ 262 ∷ 264 ∷ 264 ∷ 266 ∷ 266 ∷ 268 ∷ 268 ∷ 270 ∷ 270 ∷ 272 ∷ 272 ∷ 274 ∷ 274 ∷ 276
    ∷ 276 ∷ 278 ∷ 278 ∷ 280 ∷ 280 ∷ 282 ∷ 282 ∷ 284 ∷ 284 ∷ 286 ∷ 286 ∷ 288 ∷ 288 ∷ 290 ∷ 290 ∷ 292
    ∷ 292 ∷ 294 ∷ 294 ∷ 296 ∷ 296 ∷ 298 ∷ 298 ∷ 300 ∷ 300 ∷ 302 ∷ 302 ∷ 304 ∷ 305 ∷ 306 ∷ 306 ∷ 308
    ∷ 308 ∷ 310 ∷ 310 ∷ 312 ∷ 313 ∷ 313 ∷ 315 ∷ 315 ∷ 317 ∷ 317 ∷ 319 ∷ 319 ∷ 321 ∷ 321 ∷ 323 ∷ 323
    ∷ 325 ∷ 325 ∷ 327 ∷ 327 ∷ 329 ∷ 330 ∷ 330 ∷ 332 ∷ 332 ∷ 334 ∷ 334 ∷ 336 ∷ 336 ∷ 338 ∷ 338 ∷ 340
    ∷ 340 ∷ 342 ∷ 342 ∷ 344 ∷ 344 ∷ 346 ∷ 346 ∷ 348 ∷ 348 ∷ 350 ∷ 350 ∷ 352 ∷ 352 ∷ 354 ∷ 354 ∷ 356
    ∷ 356 ∷ 358 ∷ 358 ∷ 360 ∷ 360 ∷ 362 ∷ 362 ∷ 364 ∷ 364 ∷ 366 ∷ 366 ∷ 368 ∷ 368 ∷ 370 ∷ 370 ∷ 372
    ∷ 372 ∷ 374 ∷ 374 ∷ 376 ∷ 377 ∷ 377 ∷ 379 ∷ 379 ∷ 381 ∷ 381 ∷ 383 ∷ 579 ∷ 385 ∷ 386 ∷ 386 ∷ 388
    ∷ 388 ∷ 390 ∷ 391 ∷ 391 ∷ 393 ∷ 394 ∷ 395 ∷ 395 ∷ 397 ∷ 398 ∷ 399 ∷ 400 ∷ 401 ∷ 401 ∷ 403 ∷ 404
    ∷ 502 ∷ 406 ∷ 407 ∷ 408 ∷ 408 ∷ 573 ∷ 411 ∷ 412 ∷ 413 ∷ 544 ∷ 415 ∷ 416 ∷ 416 ∷ 418 ∷ 418 ∷ 420
    ∷ 420 ∷ 422 ∷ 423 ∷ 423 ∷ 425 ∷ 426 ∷ 427 ∷ 428 ∷ 428 ∷ 430 ∷ 431 ∷ 431 ∷ 433 ∷ 434 ∷ 435 ∷ 435
    ∷ 437 ∷ 437 ∷ 439 ∷ 440 ∷ 440 ∷ 442 ∷ 443 ∷ 444 ∷ 444 ∷ 446 ∷ 503 ∷ 448 ∷ 449 ∷ 450 ∷ 451 ∷ 452
    ∷ 453 ∷ 452 ∷ 455 ∷ 456 ∷ 455 ∷ 458 ∷ 459 ∷ 458 ∷ 461 ∷ 461 ∷ 463 ∷ 463 ∷ 465 ∷ 465 ∷ 467 ∷ 467
    ∷ 469 ∷ 469 ∷ 471 ∷ 471 ∷ 473 ∷ 473 ∷ 475 ∷ 475 ∷ 398 ∷ 478 ∷ 478 ∷ 480 ∷ 480 ∷ 482 ∷ 482 ∷ 484
    ∷ 484 ∷ 486 ∷ 486 ∷ 488 ∷ 488 ∷ 490 ∷ 490 ∷ 492 ∷ 492 ∷ 494 ∷ 494 ∷ 496 ∷ 497 ∷ 498 ∷ 497 ∷ 500
    ∷ 500 ∷ 502 ∷ 503 ∷ 504 ∷ 504 ∷ 506 ∷ 506 ∷ 508 ∷ 508 ∷ 510 ∷ 510 ∷ 512 ∷ 512 ∷ 514 ∷ 514 ∷ 516
    ∷ 516 ∷ 518 ∷ 518 ∷ 520 ∷ 520 ∷ 522 ∷ 522 ∷ 524 ∷ 524 ∷ 526 ∷ 526 ∷ 528 ∷ 528 ∷ 530 ∷ 530 ∷ 532
    ∷ 532 ∷ 534 ∷ 534 ∷ 536 ∷ 536 ∷ 538 ∷ 538 ∷ 540 ∷ 540 ∷ 542 ∷ 542 ∷ 544 ∷ 545 ∷ 546 ∷ 546 ∷ 548
    ∷ 548 ∷ 550 ∷ 550 ∷ 552 ∷ 552 ∷ 554 ∷ 554 ∷ 556 ∷ 556 ∷ 558 ∷ 558 ∷ 560 ∷ 560 ∷ 562 ∷ 562 ∷ 564
    ∷ 565 ∷ 566 ∷ 567 ∷ 568 ∷ 569 ∷ 11365 ∷ 571 ∷ 571 ∷ 573 ∷ 11366 ∷ 575 ∷ 576 ∷ 577 ∷ 577 ∷ 579
    ∷ 580 ∷ 581 ∷ 582 ∷ 582 ∷ 584 ∷ 584 ∷ 586 ∷ 586 ∷ 588 ∷ 588 ∷ 590 ∷ 590 ∷ 592 ∷ 593 ∷ 594 ∷ 385
    ∷ 390 ∷ 597 ∷ 393 ∷ 394 ∷ 600 ∷ 399 ∷ 602 ∷ 400 ∷ 604 ∷ 605 ∷ 606 ∷ 607 ∷ 403 ∷ 609 ∷ 610 ∷ 404
    ∷ 612 ∷ 613 ∷ 614 ∷ 615 ∷ 407 ∷ 406 ∷ 618 ∷ 11362 ∷ 620 ∷ 621 ∷ 622 ∷ 412 ∷ 624 ∷ 625 ∷ 413
    ∷ 627 ∷ 628 ∷ 415 ∷ 630 ∷ 631 ∷ 632 ∷ 633 ∷ 634 ∷ 635 ∷ 636 ∷ 11364 ∷ 638 ∷ 639 ∷ 422 ∷ 641
    ∷ 642 ∷ 425 ∷ 644 ∷ 645 ∷ 646 ∷ 647 ∷ 430 ∷ 580 ∷ 433 ∷ 434 ∷ 581 ∷ 653 ∷ 654 ∷ 655 ∷ 656 ∷ 657
    ∷ 439 ∷ 659 ∷ 660 ∷ 661 ∷ 662 ∷ 663 ∷ 664 ∷ 665 ∷ 666 ∷ 667 ∷ 668 ∷ 669 ∷ 670 ∷ 671 ∷ 672 ∷ 673
    ∷ 674 ∷ 675 ∷ 676 ∷ 677 ∷ 678 ∷ 679 ∷ 680 ∷ 681 ∷ 682 ∷ 683 ∷ 684 ∷ 685 ∷ 686 ∷ 687 ∷ 688 ∷ 689
    ∷ 690 ∷ 691 ∷ 692 ∷ 693 ∷ 694 ∷ 695 ∷ 696 ∷ 697 ∷ 698 ∷ 699 ∷ 700 ∷ 701 ∷ 702 ∷ 703 ∷ 704 ∷ 705
    ∷ 706 ∷ 707 ∷ 708 ∷ 709 ∷ 710 ∷ 711 ∷ 712 ∷ 713 ∷ 714 ∷ 715 ∷ 716 ∷ 717 ∷ 718 ∷ 719 ∷ 720 ∷ 721
    ∷ 722 ∷ 723 ∷ 724 ∷ 725 ∷ 726 ∷ 727 ∷ 728 ∷ 729 ∷ 730 ∷ 731 ∷ 732 ∷ 733 ∷ 734 ∷ 735 ∷ 736 ∷ 737
    ∷ 738 ∷ 739 ∷ 740 ∷ 741 ∷ 742 ∷ 743 ∷ 744 ∷ 745 ∷ 746 ∷ 747 ∷ 748 ∷ 749 ∷ 750 ∷ 751 ∷ 752 ∷ 753
    ∷ 754 ∷ 755 ∷ 756 ∷ 757 ∷ 758 ∷ 759 ∷ 760 ∷ 761 ∷ 762 ∷ 763 ∷ 764 ∷ 765 ∷ 766 ∷ 767 ∷ 768 ∷ 769
    ∷ 770 ∷ 771 ∷ 772 ∷ 773 ∷ 774 ∷ 775 ∷ 776 ∷ 777 ∷ 778 ∷ 779 ∷ 780 ∷ 781 ∷ 782 ∷ 783 ∷ 784 ∷ 785
    ∷ 786 ∷ 787 ∷ 788 ∷ 789 ∷ 790 ∷ 791 ∷ 792 ∷ 793 ∷ 794 ∷ 795 ∷ 796 ∷ 797 ∷ 798 ∷ 799 ∷ 800 ∷ 801
    ∷ 802 ∷ 803 ∷ 804 ∷ 805 ∷ 806 ∷ 807 ∷ 808 ∷ 809 ∷ 810 ∷ 811 ∷ 812 ∷ 813 ∷ 814 ∷ 815 ∷ 816 ∷ 817
    ∷ 818 ∷ 819 ∷ 820 ∷ 821 ∷ 822 ∷ 823 ∷ 824 ∷ 825 ∷ 826 ∷ 827 ∷ 828 ∷ 829 ∷ 830 ∷ 831 ∷ 832 ∷ 833
    ∷ 834 ∷ 835 ∷ 836 ∷ 837 ∷ 838 ∷ 839 ∷ 840 ∷ 841 ∷ 842 ∷ 843 ∷ 844 ∷ 845 ∷ 846 ∷ 847 ∷ 848 ∷ 849
    ∷ 850 ∷ 851 ∷ 852 ∷ 853 ∷ 854 ∷ 855 ∷ 856 ∷ 857 ∷ 858 ∷ 859 ∷ 860 ∷ 861 ∷ 862 ∷ 863 ∷ 864 ∷ 865
    ∷ 866 ∷ 867 ∷ 868 ∷ 869 ∷ 870 ∷ 871 ∷ 872 ∷ 873 ∷ 874 ∷ 875 ∷ 876 ∷ 877 ∷ 878 ∷ 879 ∷ 880 ∷ 881
    ∷ 882 ∷ 883 ∷ 884 ∷ 885 ∷ 886 ∷ 887 ∷ 888 ∷ 889 ∷ 890 ∷ 1021 ∷ 1022 ∷ 1023 ∷ 894 ∷ 895 ∷ 896
    ∷ 897 ∷ 898 ∷ 899 ∷ 900 ∷ 901 ∷ 902 ∷ 903 ∷ 904 ∷ 905 ∷ 906 ∷ 907 ∷ 908 ∷ 909 ∷ 910 ∷ 911 ∷ 912
    ∷ 913 ∷ 914 ∷ 915 ∷ 916 ∷ 917 ∷ 918 ∷ 919 ∷ 920 ∷ 921 ∷ 922 ∷ 923 ∷ 924 ∷ 925 ∷ 926 ∷ 927 ∷ 928
    ∷ 929 ∷ 930 ∷ 931 ∷ 932 ∷ 933 ∷ 934 ∷ 935 ∷ 936 ∷ 937 ∷ 938 ∷ 939 ∷ 902 ∷ 904 ∷ 905 ∷ 906 ∷ 944
    ∷ 913 ∷ 914 ∷ 915 ∷ 916 ∷ 917 ∷ 918 ∷ 919 ∷ 920 ∷ 921 ∷ 922 ∷ 923 ∷ 924 ∷ 925 ∷ 926 ∷ 927 ∷ 928
    ∷ 929 ∷ 931 ∷ 931 ∷ 932 ∷ 933 ∷ 934 ∷ 935 ∷ 936 ∷ 937 ∷ 938 ∷ 939 ∷ 908 ∷ 910 ∷ 911 ∷ 975 ∷ 976
    ∷ 977 ∷ 978 ∷ 979 ∷ 980 ∷ 981 ∷ 982 ∷ 983 ∷ 984 ∷ 984 ∷ 986 ∷ 986 ∷ 988 ∷ 988 ∷ 990 ∷ 990 ∷ 992
    ∷ 992 ∷ 994 ∷ 994 ∷ 996 ∷ 996 ∷ 998 ∷ 998 ∷ 1000 ∷ 1000 ∷ 1002 ∷ 1002 ∷ 1004 ∷ 1004 ∷ 1006
    ∷ 1006 ∷ 1008 ∷ 1009 ∷ 1017 ∷ 1011 ∷ 1012 ∷ 1013 ∷ 1014 ∷ 1015 ∷ 1015 ∷ 1017 ∷ 1018 ∷ 1018
    ∷ 1020 ∷ 1021 ∷ 1022 ∷ 1023 ∷ 1024 ∷ 1025 ∷ 1026 ∷ 1027 ∷ 1028 ∷ 1029 ∷ 1030 ∷ 1031 ∷ 1032
    ∷ 1033 ∷ 1034 ∷ 1035 ∷ 1036 ∷ 1037 ∷ 1038 ∷ 1039 ∷ 1040 ∷ 1041 ∷ 1042 ∷ 1043 ∷ 1044 ∷ 1045
    ∷ 1046 ∷ 1047 ∷ 1048 ∷ 1049 ∷ 1050 ∷ 1051 ∷ 1052 ∷ 1053 ∷ 1054 ∷ 1055 ∷ 1056 ∷ 1057 ∷ 1058
    ∷ 1059 ∷ 1060 ∷ 1061 ∷ 1062 ∷ 1063 ∷ 1064 ∷ 1065 ∷ 1066 ∷ 1067 ∷ 1068 ∷ 1069 ∷ 1070 ∷ 1071
    ∷ 1040 ∷ 1041 ∷ 1042 ∷ 1043 ∷ 1044 ∷ 1045 ∷ 1046 ∷ 1047 ∷ 1048 ∷ 1049 ∷ 1050 ∷ 1051 ∷ 1052
    ∷ 1053 ∷ 1054 ∷ 1055 ∷ 1056 ∷ 1057 ∷ 1058 ∷ 1059 ∷ 1060 ∷ 1061 ∷ 1062 ∷ 1063 ∷ 1064 ∷ 1065
    ∷ 1066 ∷ 1067 ∷ 1068 ∷ 1069 ∷ 1070 ∷ 1071 ∷ 1024 ∷ 1025 ∷ 1026 ∷ 1027 ∷ 1028 ∷ 1029 ∷ 1030
    ∷ 1031 ∷ 1032 ∷ 1033 ∷ 1034 ∷ 1035 ∷ 1036 ∷ 1037 ∷ 1038 ∷ 1039 ∷ 1120 ∷ 1120 ∷ 1122 ∷ 1122
    ∷ 1124 ∷ 1124 ∷ 1126 ∷ 1126 ∷ 1128 ∷ 1128 ∷ 1130 ∷ 1130 ∷ 1132 ∷ 1132 ∷ 1134 ∷ 1134 ∷ 1136
    ∷ 1136 ∷ 1138 ∷ 1138 ∷ 1140 ∷ 1140 ∷ 1142 ∷ 1142 ∷ 1144 ∷ 1144 ∷ 1146 ∷ 1146 ∷ 1148 ∷ 1148
    ∷ 1150 ∷ 1150 ∷ 1152 ∷ 1152 ∷ 1154 ∷ 1155 ∷ 1156 ∷ 1157 ∷ 1158 ∷ 1159 ∷ 1160 ∷ 1161 ∷ 1162
    ∷ 1162 ∷ 1164 ∷ 1164 ∷ 1166 ∷ 1166 ∷ 1168 ∷ 1168 ∷ 1170 ∷ 1170 ∷ 1172 ∷ 1172 ∷ 1174 ∷ 1174
    ∷ 1176 ∷ 1176 ∷ 1178 ∷ 1178 ∷ 1180 ∷ 1180 ∷ 1182 ∷ 1182 ∷ 1184 ∷ 1184 ∷ 1186 ∷ 1186 ∷ 1188
    ∷ 1188 ∷ 1190 ∷ 1190 ∷ 1192 ∷ 1192 ∷ 1194 ∷ 1194 ∷ 1196 ∷ 1196 ∷ 1198 ∷ 1198 ∷ 1200 ∷ 1200
    ∷ 1202 ∷ 1202 ∷ 1204 ∷ 1204 ∷ 1206 ∷ 1206 ∷ 1208 ∷ 1208 ∷ 1210 ∷ 1210 ∷ 1212 ∷ 1212 ∷ 1214
    ∷ 1214 ∷ 1216 ∷ 1217 ∷ 1217 ∷ 1219 ∷ 1219 ∷ 1221 ∷ 1221 ∷ 1223 ∷ 1223 ∷ 1225 ∷ 1225 ∷ 1227
    ∷ 1227 ∷ 1229 ∷ 1229 ∷ 1216 ∷ 1232 ∷ 1232 ∷ 1234 ∷ 1234 ∷ 1236 ∷ 1236 ∷ 1238 ∷ 1238 ∷ 1240
    ∷ 1240 ∷ 1242 ∷ 1242 ∷ 1244 ∷ 1244 ∷ 1246 ∷ 1246 ∷ 1248 ∷ 1248 ∷ 1250 ∷ 1250 ∷ 1252 ∷ 1252
    ∷ 1254 ∷ 1254 ∷ 1256 ∷ 1256 ∷ 1258 ∷ 1258 ∷ 1260 ∷ 1260 ∷ 1262 ∷ 1262 ∷ 1264 ∷ 1264 ∷ 1266
    ∷ 1266 ∷ 1268 ∷ 1268 ∷ 1270 ∷ 1270 ∷ 1272 ∷ 1272 ∷ 1274 ∷ 1274 ∷ 1276 ∷ 1276 ∷ 1278 ∷ 1278
    ∷ 1280 ∷ 1280 ∷ 1282 ∷ 1282 ∷ 1284 ∷ 1284 ∷ 1286 ∷ 1286 ∷ 1288 ∷ 1288 ∷ 1290 ∷ 1290 ∷ 1292
    ∷ 1292 ∷ 1294 ∷ 1294 ∷ 1296 ∷ 1296 ∷ 1298 ∷ 1298 ∷ 1300 ∷ 1301 ∷ 1302 ∷ 1303 ∷ 1304 ∷ 1305
    ∷ 1306 ∷ 1307 ∷ 1308 ∷ 1309 ∷ 1310 ∷ 1311 ∷ 1312 ∷ 1313 ∷ 1314 ∷ 1315 ∷ 1316 ∷ 1317 ∷ 1318
    ∷ 1319 ∷ 1320 ∷ 1321 ∷ 1322 ∷ 1323 ∷ 1324 ∷ 1325 ∷ 1326 ∷ 1327 ∷ 1328 ∷ 1329 ∷ 1330 ∷ 1331
    ∷ 1332 ∷ 1333 ∷ 1334 ∷ 1335 ∷ 1336 ∷ 1337 ∷ 1338 ∷ 1339 ∷ 1340 ∷ 1341 ∷ 1342 ∷ 1343 ∷ 1344
    ∷ 1345 ∷ 1346 ∷ 1347 ∷ 1348 ∷ 1349 ∷ 1350 ∷ 1351 ∷ 1352 ∷ 1353 ∷ 1354 ∷ 1355 ∷ 1356 ∷ 1357
    ∷ 1358 ∷ 1359 ∷ 1360 ∷ 1361 ∷ 1362 ∷ 1363 ∷ 1364 ∷ 1365 ∷ 1366 ∷ 1367 ∷ 1368 ∷ 1369 ∷ 1370
    ∷ 1371 ∷ 1372 ∷ 1373 ∷ 1374 ∷ 1375 ∷ 1376 ∷ 1329 ∷ 1330 ∷ 1331 ∷ 1332 ∷ 1333 ∷ 1334 ∷ 1335
    ∷ 1336 ∷ 1337 ∷ 1338 ∷ 1339 ∷ 1340 ∷ 1341 ∷ 1342 ∷ 1343 ∷ 1344 ∷ 1345 ∷ 1346 ∷ 1347 ∷ 1348
    ∷ 1349 ∷ 1350 ∷ 1351 ∷ 1352 ∷ 1353 ∷ 1354 ∷ 1355 ∷ 1356 ∷ 1357 ∷ 1358 ∷ 1359 ∷ 1360 ∷ 1361
    ∷ 1362 ∷ 1363 ∷ 1364 ∷ 1365 ∷ 1366 ∷ 65535 ∷ 6134 ∷ 11363 ∷ 7550 ∷ 7551 ∷ 7552 ∷ 7553 ∷ 7554
    ∷ 7555 ∷ 7556 ∷ 7557 ∷ 7558 ∷ 7559 ∷ 7560 ∷ 7561 ∷ 7562 ∷ 7563 ∷ 7564 ∷ 7565 ∷ 7566 ∷ 7567
    ∷ 7568 ∷ 7569 ∷ 7570 ∷ 7571 ∷ 7572 ∷ 7573 ∷ 7574 ∷ 7575 ∷ 7576 ∷ 7577 ∷ 7578 ∷ 7579 ∷ 7580
    ∷ 7581 ∷ 7582 ∷ 7583 ∷ 7584 ∷ 7585 ∷ 7586 ∷ 7587 ∷ 7588 ∷ 7589 ∷ 7590 ∷ 7591 ∷ 7592 ∷ 7593
    ∷ 7594 ∷ 7595 ∷ 7596 ∷ 7597 ∷ 7598 ∷ 7599 ∷ 7600 ∷ 7601 ∷ 7602 ∷ 7603 ∷ 7604 ∷ 7605 ∷ 7606
    ∷ 7607 ∷ 7608 ∷ 7609 ∷ 7610 ∷ 7611 ∷ 7612 ∷ 7613 ∷ 7614 ∷ 7615 ∷ 7616 ∷ 7617 ∷ 7618 ∷ 7619
    ∷ 7620 ∷ 7621 ∷ 7622 ∷ 7623 ∷ 7624 ∷ 7625 ∷ 7626 ∷ 7627 ∷ 7628 ∷ 7629 ∷ 7630 ∷ 7631 ∷ 7632
    ∷ 7633 ∷ 7634 ∷ 7635 ∷ 7636 ∷ 7637 ∷ 7638 ∷ 7639 ∷ 7640 ∷ 7641 ∷ 7642 ∷ 7643 ∷ 7644 ∷ 7645
    ∷ 7646 ∷ 7647 ∷ 7648 ∷ 7649 ∷ 7650 ∷ 7651 ∷ 7652 ∷ 7653 ∷ 7654 ∷ 7655 ∷ 7656 ∷ 7657 ∷ 7658
    ∷ 7659 ∷ 7660 ∷ 7661 ∷ 7662 ∷ 7663 ∷ 7664 ∷ 7665 ∷ 7666 ∷ 7667 ∷ 7668 ∷ 7669 ∷ 7670 ∷ 7671
    ∷ 7672 ∷ 7673 ∷ 7674 ∷ 7675 ∷ 7676 ∷ 7677 ∷ 7678 ∷ 7679 ∷ 7680 ∷ 7680 ∷ 7682 ∷ 7682 ∷ 7684
    ∷ 7684 ∷ 7686 ∷ 7686 ∷ 7688 ∷ 7688 ∷ 7690 ∷ 7690 ∷ 7692 ∷ 7692 ∷ 7694 ∷ 7694 ∷ 7696 ∷ 7696
    ∷ 7698 ∷ 7698 ∷ 7700 ∷ 7700 ∷ 7702 ∷ 7702 ∷ 7704 ∷ 7704 ∷ 7706 ∷ 7706 ∷ 7708 ∷ 7708 ∷ 7710
    ∷ 7710 ∷ 7712 ∷ 7712 ∷ 7714 ∷ 7714 ∷ 7716 ∷ 7716 ∷ 7718 ∷ 7718 ∷ 7720 ∷ 7720 ∷ 7722 ∷ 7722
    ∷ 7724 ∷ 7724 ∷ 7726 ∷ 7726 ∷ 7728 ∷ 7728 ∷ 7730 ∷ 7730 ∷ 7732 ∷ 7732 ∷ 7734 ∷ 7734 ∷ 7736
    ∷ 7736 ∷ 7738 ∷ 7738 ∷ 7740 ∷ 7740 ∷ 7742 ∷ 7742 ∷ 7744 ∷ 7744 ∷ 7746 ∷ 7746 ∷ 7748 ∷ 7748
    ∷ 7750 ∷ 7750 ∷ 7752 ∷ 7752 ∷ 7754 ∷ 7754 ∷ 7756 ∷ 7756 ∷ 7758 ∷ 7758 ∷ 7760 ∷ 7760 ∷ 7762
    ∷ 7762 ∷ 7764 ∷ 7764 ∷ 7766 ∷ 7766 ∷ 7768 ∷ 7768 ∷ 7770 ∷ 7770 ∷ 7772 ∷ 7772 ∷ 7774 ∷ 7774
    ∷ 7776 ∷ 7776 ∷ 7778 ∷ 7778 ∷ 7780 ∷ 7780 ∷ 7782 ∷ 7782 ∷ 7784 ∷ 7784 ∷ 7786 ∷ 7786 ∷ 7788
    ∷ 7788 ∷ 7790 ∷ 7790 ∷ 7792 ∷ 7792 ∷ 7794 ∷ 7794 ∷ 7796 ∷ 7796 ∷ 7798 ∷ 7798 ∷ 7800 ∷ 7800
    ∷ 7802 ∷ 7802 ∷ 7804 ∷ 7804 ∷ 7806 ∷ 7806 ∷ 7808 ∷ 7808 ∷ 7810 ∷ 7810 ∷ 7812 ∷ 7812 ∷ 7814
    ∷ 7814 ∷ 7816 ∷ 7816 ∷ 7818 ∷ 7818 ∷ 7820 ∷ 7820 ∷ 7822 ∷ 7822 ∷ 7824 ∷ 7824 ∷ 7826 ∷ 7826
    ∷ 7828 ∷ 7828 ∷ 7830 ∷ 7831 ∷ 7832 ∷ 7833 ∷ 7834 ∷ 7835 ∷ 7836 ∷ 7837 ∷ 7838 ∷ 7839 ∷ 7840
    ∷ 7840 ∷ 7842 ∷ 7842 ∷ 7844 ∷ 7844 ∷ 7846 ∷ 7846 ∷ 7848 ∷ 7848 ∷ 7850 ∷ 7850 ∷ 7852 ∷ 7852
    ∷ 7854 ∷ 7854 ∷ 7856 ∷ 7856 ∷ 7858 ∷ 7858 ∷ 7860 ∷ 7860 ∷ 7862 ∷ 7862 ∷ 7864 ∷ 7864 ∷ 7866
    ∷ 7866 ∷ 7868 ∷ 7868 ∷ 7870 ∷ 7870 ∷ 7872 ∷ 7872 ∷ 7874 ∷ 7874 ∷ 7876 ∷ 7876 ∷ 7878 ∷ 7878
    ∷ 7880 ∷ 7880 ∷ 7882 ∷ 7882 ∷ 7884 ∷ 7884 ∷ 7886 ∷ 7886 ∷ 7888 ∷ 7888 ∷ 7890 ∷ 7890 ∷ 7892
    ∷ 7892 ∷ 7894 ∷ 7894 ∷ 7896 ∷ 7896 ∷ 7898 ∷ 7898 ∷ 7900 ∷ 7900 ∷ 7902 ∷ 7902 ∷ 7904 ∷ 7904
    ∷ 7906 ∷ 7906 ∷ 7908 ∷ 7908 ∷ 7910 ∷ 7910 ∷ 7912 ∷ 7912 ∷ 7914 ∷ 7914 ∷ 7916 ∷ 7916 ∷ 7918
    ∷ 7918 ∷ 7920 ∷ 7920 ∷ 7922 ∷ 7922 ∷ 7924 ∷ 7924 ∷ 7926 ∷ 7926 ∷ 7928 ∷ 7928 ∷ 7930 ∷ 7931
    ∷ 7932 ∷ 7933 ∷ 7934 ∷ 7935 ∷ 7944 ∷ 7945 ∷ 7946 ∷ 7947 ∷ 7948 ∷ 7949 ∷ 7950 ∷ 7951 ∷ 7944
    ∷ 7945 ∷ 7946 ∷ 7947 ∷ 7948 ∷ 7949 ∷ 7950 ∷ 7951 ∷ 7960 ∷ 7961 ∷ 7962 ∷ 7963 ∷ 7964 ∷ 7965
    ∷ 7958 ∷ 7959 ∷ 7960 ∷ 7961 ∷ 7962 ∷ 7963 ∷ 7964 ∷ 7965 ∷ 7966 ∷ 7967 ∷ 7976 ∷ 7977 ∷ 7978
    ∷ 7979 ∷ 7980 ∷ 7981 ∷ 7982 ∷ 7983 ∷ 7976 ∷ 7977 ∷ 7978 ∷ 7979 ∷ 7980 ∷ 7981 ∷ 7982 ∷ 7983
    ∷ 7992 ∷ 7993 ∷ 7994 ∷ 7995 ∷ 7996 ∷ 7997 ∷ 7998 ∷ 7999 ∷ 7992 ∷ 7993 ∷ 7994 ∷ 7995 ∷ 7996
    ∷ 7997 ∷ 7998 ∷ 7999 ∷ 8008 ∷ 8009 ∷ 8010 ∷ 8011 ∷ 8012 ∷ 8013 ∷ 8006 ∷ 8007 ∷ 8008 ∷ 8009
    ∷ 8010 ∷ 8011 ∷ 8012 ∷ 8013 ∷ 8014 ∷ 8015 ∷ 8016 ∷ 8025 ∷ 8018 ∷ 8027 ∷ 8020 ∷ 8029 ∷ 8022
    ∷ 8031 ∷ 8024 ∷ 8025 ∷ 8026 ∷ 8027 ∷ 8028 ∷ 8029 ∷ 8030 ∷ 8031 ∷ 8040 ∷ 8041 ∷ 8042 ∷ 8043
    ∷ 8044 ∷ 8045 ∷ 8046 ∷ 8047 ∷ 8040 ∷ 8041 ∷ 8042 ∷ 8043 ∷ 8044 ∷ 8045 ∷ 8046 ∷ 8047 ∷ 8122
    ∷ 8123 ∷ 8136 ∷ 8137 ∷ 8138 ∷ 8139 ∷ 8154 ∷ 8155 ∷ 8184 ∷ 8185 ∷ 8170 ∷ 8171 ∷ 8186 ∷ 8187
    ∷ 8062 ∷ 8063 ∷ 8072 ∷ 8073 ∷ 8074 ∷ 8075 ∷ 8076 ∷ 8077 ∷ 8078 ∷ 8079 ∷ 8072 ∷ 8073 ∷ 8074
    ∷ 8075 ∷ 8076 ∷ 8077 ∷ 8078 ∷ 8079 ∷ 8088 ∷ 8089 ∷ 8090 ∷ 8091 ∷ 8092 ∷ 8093 ∷ 8094 ∷ 8095
    ∷ 8088 ∷ 8089 ∷ 8090 ∷ 8091 ∷ 8092 ∷ 8093 ∷ 8094 ∷ 8095 ∷ 8104 ∷ 8105 ∷ 8106 ∷ 8107 ∷ 8108
    ∷ 8109 ∷ 8110 ∷ 8111 ∷ 8104 ∷ 8105 ∷ 8106 ∷ 8107 ∷ 8108 ∷ 8109 ∷ 8110 ∷ 8111 ∷ 8120 ∷ 8121
    ∷ 8114 ∷ 8124 ∷ 8116 ∷ 8117 ∷ 8118 ∷ 8119 ∷ 8120 ∷ 8121 ∷ 8122 ∷ 8123 ∷ 8124 ∷ 8125 ∷ 8126
    ∷ 8127 ∷ 8128 ∷ 8129 ∷ 8130 ∷ 8131 ∷ 8132 ∷ 8133 ∷ 8134 ∷ 8135 ∷ 8136 ∷ 8137 ∷ 8138 ∷ 8139
    ∷ 8131 ∷ 8141 ∷ 8142 ∷ 8143 ∷ 8152 ∷ 8153 ∷ 8146 ∷ 8147 ∷ 8148 ∷ 8149 ∷ 8150 ∷ 8151 ∷ 8152
    ∷ 8153 ∷ 8154 ∷ 8155 ∷ 8156 ∷ 8157 ∷ 8158 ∷ 8159 ∷ 8168 ∷ 8169 ∷ 8162 ∷ 8163 ∷ 8164 ∷ 8172
    ∷ 8166 ∷ 8167 ∷ 8168 ∷ 8169 ∷ 8170 ∷ 8171 ∷ 8172 ∷ 8173 ∷ 8174 ∷ 8175 ∷ 8176 ∷ 8177 ∷ 8178
    ∷ 8179 ∷ 8180 ∷ 8181 ∷ 8182 ∷ 8183 ∷ 8184 ∷ 8185 ∷ 8186 ∷ 8187 ∷ 8179 ∷ 8189 ∷ 8190 ∷ 8191
    ∷ 8192 ∷ 8193 ∷ 8194 ∷ 8195 ∷ 8196 ∷ 8197 ∷ 8198 ∷ 8199 ∷ 8200 ∷ 8201 ∷ 8202 ∷ 8203 ∷ 8204
    ∷ 8205 ∷ 8206 ∷ 8207 ∷ 8208 ∷ 8209 ∷ 8210 ∷ 8211 ∷ 8212 ∷ 8213 ∷ 8214 ∷ 8215 ∷ 8216 ∷ 8217
    ∷ 8218 ∷ 8219 ∷ 8220 ∷ 8221 ∷ 8222 ∷ 8223 ∷ 8224 ∷ 8225 ∷ 8226 ∷ 8227 ∷ 8228 ∷ 8229 ∷ 8230
    ∷ 8231 ∷ 8232 ∷ 8233 ∷ 8234 ∷ 8235 ∷ 8236 ∷ 8237 ∷ 8238 ∷ 8239 ∷ 8240 ∷ 8241 ∷ 8242 ∷ 8243
    ∷ 8244 ∷ 8245 ∷ 8246 ∷ 8247 ∷ 8248 ∷ 8249 ∷ 8250 ∷ 8251 ∷ 8252 ∷ 8253 ∷ 8254 ∷ 8255 ∷ 8256
    ∷ 8257 ∷ 8258 ∷ 8259 ∷ 8260 ∷ 8261 ∷ 8262 ∷ 8263 ∷ 8264 ∷ 8265 ∷ 8266 ∷ 8267 ∷ 8268 ∷ 8269
    ∷ 8270 ∷ 8271 ∷ 8272 ∷ 8273 ∷ 8274 ∷ 8275 ∷ 8276 ∷ 8277 ∷ 8278 ∷ 8279 ∷ 8280 ∷ 8281 ∷ 8282
    ∷ 8283 ∷ 8284 ∷ 8285 ∷ 8286 ∷ 8287 ∷ 8288 ∷ 8289 ∷ 8290 ∷ 8291 ∷ 8292 ∷ 8293 ∷ 8294 ∷ 8295
    ∷ 8296 ∷ 8297 ∷ 8298 ∷ 8299 ∷ 8300 ∷ 8301 ∷ 8302 ∷ 8303 ∷ 8304 ∷ 8305 ∷ 8306 ∷ 8307 ∷ 8308
    ∷ 8309 ∷ 8310 ∷ 8311 ∷ 8312 ∷ 8313 ∷ 8314 ∷ 8315 ∷ 8316 ∷ 8317 ∷ 8318 ∷ 8319 ∷ 8320 ∷ 8321
    ∷ 8322 ∷ 8323 ∷ 8324 ∷ 8325 ∷ 8326 ∷ 8327 ∷ 8328 ∷ 8329 ∷ 8330 ∷ 8331 ∷ 8332 ∷ 8333 ∷ 8334
    ∷ 8335 ∷ 8336 ∷ 8337 ∷ 8338 ∷ 8339 ∷ 8340 ∷ 8341 ∷ 8342 ∷ 8343 ∷ 8344 ∷ 8345 ∷ 8346 ∷ 8347
    ∷ 8348 ∷ 8349 ∷ 8350 ∷ 8351 ∷ 8352 ∷ 8353 ∷ 8354 ∷ 8355 ∷ 8356 ∷ 8357 ∷ 8358 ∷ 8359 ∷ 8360
    ∷ 8361 ∷ 8362 ∷ 8363 ∷ 8364 ∷ 8365 ∷ 8366 ∷ 8367 ∷ 8368 ∷ 8369 ∷ 8370 ∷ 8371 ∷ 8372 ∷ 8373
    ∷ 8374 ∷ 8375 ∷ 8376 ∷ 8377 ∷ 8378 ∷ 8379 ∷ 8380 ∷ 8381 ∷ 8382 ∷ 8383 ∷ 8384 ∷ 8385 ∷ 8386
    ∷ 8387 ∷ 8388 ∷ 8389 ∷ 8390 ∷ 8391 ∷ 8392 ∷ 8393 ∷ 8394 ∷ 8395 ∷ 8396 ∷ 8397 ∷ 8398 ∷ 8399
    ∷ 8400 ∷ 8401 ∷ 8402 ∷ 8403 ∷ 8404 ∷ 8405 ∷ 8406 ∷ 8407 ∷ 8408 ∷ 8409 ∷ 8410 ∷ 8411 ∷ 8412
    ∷ 8413 ∷ 8414 ∷ 8415 ∷ 8416 ∷ 8417 ∷ 8418 ∷ 8419 ∷ 8420 ∷ 8421 ∷ 8422 ∷ 8423 ∷ 8424 ∷ 8425
    ∷ 8426 ∷ 8427 ∷ 8428 ∷ 8429 ∷ 8430 ∷ 8431 ∷ 8432 ∷ 8433 ∷ 8434 ∷ 8435 ∷ 8436 ∷ 8437 ∷ 8438
    ∷ 8439 ∷ 8440 ∷ 8441 ∷ 8442 ∷ 8443 ∷ 8444 ∷ 8445 ∷ 8446 ∷ 8447 ∷ 8448 ∷ 8449 ∷ 8450 ∷ 8451
    ∷ 8452 ∷ 8453 ∷ 8454 ∷ 8455 ∷ 8456 ∷ 8457 ∷ 8458 ∷ 8459 ∷ 8460 ∷ 8461 ∷ 8462 ∷ 8463 ∷ 8464
    ∷ 8465 ∷ 8466 ∷ 8467 ∷ 8468 ∷ 8469 ∷ 8470 ∷ 8471 ∷ 8472 ∷ 8473 ∷ 8474 ∷ 8475 ∷ 8476 ∷ 8477
    ∷ 8478 ∷ 8479 ∷ 8480 ∷ 8481 ∷ 8482 ∷ 8483 ∷ 8484 ∷ 8485 ∷ 8486 ∷ 8487 ∷ 8488 ∷ 8489 ∷ 8490
    ∷ 8491 ∷ 8492 ∷ 8493 ∷ 8494 ∷ 8495 ∷ 8496 ∷ 8497 ∷ 8498 ∷ 8499 ∷ 8500 ∷ 8501 ∷ 8502 ∷ 8503
    ∷ 8504 ∷ 8505 ∷ 8506 ∷ 8507 ∷ 8508 ∷ 8509 ∷ 8510 ∷ 8511 ∷ 8512 ∷ 8513 ∷ 8514 ∷ 8515 ∷ 8516
    ∷ 8517 ∷ 8518 ∷ 8519 ∷ 8520 ∷ 8521 ∷ 8522 ∷ 8523 ∷ 8524 ∷ 8525 ∷ 8498 ∷ 8527 ∷ 8528 ∷ 8529
    ∷ 8530 ∷ 8531 ∷ 8532 ∷ 8533 ∷ 8534 ∷ 8535 ∷ 8536 ∷ 8537 ∷ 8538 ∷ 8539 ∷ 8540 ∷ 8541 ∷ 8542
    ∷ 8543 ∷ 8544 ∷ 8545 ∷ 8546 ∷ 8547 ∷ 8548 ∷ 8549 ∷ 8550 ∷ 8551 ∷ 8552 ∷ 8553 ∷ 8554 ∷ 8555
    ∷ 8556 ∷ 8557 ∷ 8558 ∷ 8559 ∷ 8544 ∷ 8545 ∷ 8546 ∷ 8547 ∷ 8548 ∷ 8549 ∷ 8550 ∷ 8551 ∷ 8552
    ∷ 8553 ∷ 8554 ∷ 8555 ∷ 8556 ∷ 8557 ∷ 8558 ∷ 8559 ∷ 8576 ∷ 8577 ∷ 8578 ∷ 8579 ∷ 8579 ∷ 65535
    ∷ 843 ∷ 9398 ∷ 9399 ∷ 9400 ∷ 9401 ∷ 9402 ∷ 9403 ∷ 9404 ∷ 9405 ∷ 9406 ∷ 9407 ∷ 9408 ∷ 9409 ∷ 9410
    ∷ 9411 ∷ 9412 ∷ 9413 ∷ 9414 ∷ 9415 ∷ 9416 ∷ 9417 ∷ 9418 ∷ 9419 ∷ 9420 ∷ 9421 ∷ 9422 ∷ 9423
    ∷ 65535 ∷ 1862 ∷ 11264 ∷ 11265 ∷ 11266 ∷ 11267 ∷ 11268 ∷ 11269 ∷ 11270 ∷ 11271 ∷ 11272 ∷ 11273
    ∷ 11274 ∷ 11275 ∷ 11276 ∷ 11277 ∷ 11278 ∷ 11279 ∷ 11280 ∷ 11281 ∷ 11282 ∷ 11283 ∷ 11284 ∷ 11285
    ∷ 11286 ∷ 11287 ∷ 11288 ∷ 11289 ∷ 11290 ∷ 11291 ∷ 11292 ∷ 11293 ∷ 11294 ∷ 11295 ∷ 11296 ∷ 11297
    ∷ 11298 ∷ 11299 ∷ 11300 ∷ 11301 ∷ 11302 ∷ 11303 ∷ 11304 ∷ 11305 ∷ 11306 ∷ 11307 ∷ 11308 ∷ 11309
    ∷ 11310 ∷ 11359 ∷ 11360 ∷ 11360 ∷ 11362 ∷ 11363 ∷ 11364 ∷ 11365 ∷ 11366 ∷ 11367 ∷ 11367 ∷ 11369
    ∷ 11369 ∷ 11371 ∷ 11371 ∷ 11373 ∷ 11374 ∷ 11375 ∷ 11376 ∷ 11377 ∷ 11378 ∷ 11379 ∷ 11380 ∷ 11381
    ∷ 11381 ∷ 11383 ∷ 11384 ∷ 11385 ∷ 11386 ∷ 11387 ∷ 11388 ∷ 11389 ∷ 11390 ∷ 11391 ∷ 11392 ∷ 11392
    ∷ 11394 ∷ 11394 ∷ 11396 ∷ 11396 ∷ 11398 ∷ 11398 ∷ 11400 ∷ 11400 ∷ 11402 ∷ 11402 ∷ 11404 ∷ 11404
    ∷ 11406 ∷ 11406 ∷ 11408 ∷ 11408 ∷ 11410 ∷ 11410 ∷ 11412 ∷ 11412 ∷ 11414 ∷ 11414 ∷ 11416 ∷ 11416
    ∷ 11418 ∷ 11418 ∷ 11420 ∷ 11420 ∷ 11422 ∷ 11422 ∷ 11424 ∷ 11424 ∷ 11426 ∷ 11426 ∷ 11428 ∷ 11428
    ∷ 11430 ∷ 11430 ∷ 11432 ∷ 11432 ∷ 11434 ∷ 11434 ∷ 11436 ∷ 11436 ∷ 11438 ∷ 11438 ∷ 11440 ∷ 11440
    ∷ 11442 ∷ 11442 ∷ 11444 ∷ 11444 ∷ 11446 ∷ 11446 ∷ 11448 ∷ 11448 ∷ 11450 ∷ 11450 ∷ 11452 ∷ 11452
    ∷ 11454 ∷ 11454 ∷ 11456 ∷ 11456 ∷ 11458 ∷ 11458 ∷ 11460 ∷ 11460 ∷ 11462 ∷ 11462 ∷ 11464 ∷ 11464
    ∷ 11466 ∷ 11466 ∷ 11468 ∷ 11468 ∷ 11470 ∷ 11470 ∷ 11472 ∷ 11472 ∷ 11474 ∷ 11474 ∷ 11476 ∷ 11476
    ∷ 11478 ∷ 11478 ∷ 11480 ∷ 11480 ∷ 11482 ∷ 11482 ∷ 11484 ∷ 11484 ∷ 11486 ∷ 11486 ∷ 11488 ∷ 11488
    ∷ 11490 ∷ 11490 ∷ 11492 ∷ 11493 ∷ 11494 ∷ 11495 ∷ 11496 ∷ 11497 ∷ 11498 ∷ 11499 ∷ 11500 ∷ 11501
    ∷ 11502 ∷ 11503 ∷ 11504 ∷ 11505 ∷ 11506 ∷ 11507 ∷ 11508 ∷ 11509 ∷ 11510 ∷ 11511 ∷ 11512 ∷ 11513
    ∷ 11514 ∷ 11515 ∷ 11516 ∷ 11517 ∷ 11518 ∷ 11519 ∷ 4256 ∷ 4257 ∷ 4258 ∷ 4259 ∷ 4260 ∷ 4261 ∷ 4262
    ∷ 4263 ∷ 4264 ∷ 4265 ∷ 4266 ∷ 4267 ∷ 4268 ∷ 4269 ∷ 4270 ∷ 4271 ∷ 4272 ∷ 4273 ∷ 4274 ∷ 4275
    ∷ 4276 ∷ 4277 ∷ 4278 ∷ 4279 ∷ 4280 ∷ 4281 ∷ 4282 ∷ 4283 ∷ 4284 ∷ 4285 ∷ 4286 ∷ 4287 ∷ 4288
    ∷ 4289 ∷ 4290 ∷ 4291 ∷ 4292 ∷ 4293 ∷ 65535 ∷ 53787 ∷ 65313 ∷ 65314 ∷ 65315 ∷ 65316 ∷ 65317
    ∷ 65318 ∷ 65319 ∷ 65320 ∷ 65321 ∷ 65322 ∷ 65323 ∷ 65324 ∷ 65325 ∷ 65326 ∷ 65327 ∷ 65328 ∷ 65329
    ∷ 65330 ∷ 65331 ∷ 65332 ∷ 65333 ∷ 65334 ∷ 65335 ∷ 65336 ∷ 65337 ∷ 65338 ∷ 65371 ∷ 65372 ∷ 65373
    ∷ 65374 ∷ 65375 ∷ 65376 ∷ 65377 ∷ 65378 ∷ 65379 ∷ 65380 ∷ 65381 ∷ 65382 ∷ 65383 ∷ 65384 ∷ 65385
    ∷ 65386 ∷ 65387 ∷ 65388 ∷ 65389 ∷ 65390 ∷ 65391 ∷ 65392 ∷ 65393 ∷ 65394 ∷ 65395 ∷ 65396 ∷ 65397
    ∷ 65398 ∷ 65399 ∷ 65400 ∷ 65401 ∷ 65402 ∷ 65403 ∷ 65404 ∷ 65405 ∷ 65406 ∷ 65407 ∷ 65408 ∷ 65409
    ∷ 65410 ∷ 65411 ∷ 65412 ∷ 65413 ∷ 65414 ∷ 65415 ∷ 65416 ∷ 65417 ∷ 65418 ∷ 65419 ∷ 65420 ∷ 65421
    ∷ 65422 ∷ 65423 ∷ 65424 ∷ 65425 ∷ 65426 ∷ 65427 ∷ 65428 ∷ 65429 ∷ 65430 ∷ 65431 ∷ 65432 ∷ 65433
    ∷ 65434 ∷ 65435 ∷ 65436 ∷ 65437 ∷ 65438 ∷ 65439 ∷ 65440 ∷ 65441 ∷ 65442 ∷ 65443 ∷ 65444 ∷ 65445
    ∷ 65446 ∷ 65447 ∷ 65448 ∷ 65449 ∷ 65450 ∷ 65451 ∷ 65452 ∷ 65453 ∷ 65454 ∷ 65455 ∷ 65456 ∷ 65457
    ∷ 65458 ∷ 65459 ∷ 65460 ∷ 65461 ∷ 65462 ∷ 65463 ∷ 65464 ∷ 65465 ∷ 65466 ∷ 65467 ∷ 65468 ∷ 65469
    ∷ 65470 ∷ 65471 ∷ 65472 ∷ 65473 ∷ 65474 ∷ 65475 ∷ 65476 ∷ 65477 ∷ 65478 ∷ 65479 ∷ 65480 ∷ 65481
    ∷ 65482 ∷ 65483 ∷ 65484 ∷ 65485 ∷ 65486 ∷ 65487 ∷ 65488 ∷ 65489 ∷ 65490 ∷ 65491 ∷ 65492 ∷ 65493
    ∷ 65494 ∷ 65495 ∷ 65496 ∷ 65497 ∷ 65498 ∷ 65499 ∷ 65500 ∷ 65501 ∷ 65502 ∷ 65503 ∷ 65504 ∷ 65505
    ∷ 65506 ∷ 65507 ∷ 65508 ∷ 65509 ∷ 65510 ∷ 65511 ∷ 65512 ∷ 65513 ∷ 65514 ∷ 65515 ∷ 65516 ∷ 65517
    ∷ 65518 ∷ 65519 ∷ 65520 ∷ 65521 ∷ 65522 ∷ 65523 ∷ 65524 ∷ 65525 ∷ 65526 ∷ 65527 ∷ 65528 ∷ 65529
    ∷ 65530 ∷ 65531 ∷ 65532 ∷ 65533 ∷ 65534 ∷ 65535 ∷ []
