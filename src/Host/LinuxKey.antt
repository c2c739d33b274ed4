-- ===== src/Host/LinuxKey.antt =====
-- The Linux key codes that napi_init.cpp defines by their numbers.
use fish_term.Prelude.{ℕ}

abbrev pub linux_key_tab : ℕ
linux_key_tab = 15

abbrev pub linux_key_1 : ℕ
linux_key_1 = 2

abbrev pub linux_key_0 : ℕ
linux_key_0 = 11

abbrev pub linux_key_minus : ℕ
linux_key_minus = 12

abbrev pub linux_key_equals : ℕ
linux_key_equals = 13

abbrev pub linux_key_enter : ℕ
linux_key_enter = 28

abbrev pub linux_key_backspace : ℕ
linux_key_backspace = 14

abbrev pub linux_key_q : ℕ
linux_key_q = 16

abbrev pub linux_key_w : ℕ
linux_key_w = 17

abbrev pub linux_key_e : ℕ
linux_key_e = 18

abbrev pub linux_key_r : ℕ
linux_key_r = 19

abbrev pub linux_key_t : ℕ
linux_key_t = 20

abbrev pub linux_key_y : ℕ
linux_key_y = 21

abbrev pub linux_key_u : ℕ
linux_key_u = 22

abbrev pub linux_key_i : ℕ
linux_key_i = 23

abbrev pub linux_key_o : ℕ
linux_key_o = 24

abbrev pub linux_key_p : ℕ
linux_key_p = 25

abbrev pub linux_key_left_brace : ℕ
linux_key_left_brace = 26

abbrev pub linux_key_right_brace : ℕ
linux_key_right_brace = 27

abbrev pub linux_key_a : ℕ
linux_key_a = 30

abbrev pub linux_key_s : ℕ
linux_key_s = 31

abbrev pub linux_key_d : ℕ
linux_key_d = 32

abbrev pub linux_key_f : ℕ
linux_key_f = 33

abbrev pub linux_key_g : ℕ
linux_key_g = 34

abbrev pub linux_key_h : ℕ
linux_key_h = 35

abbrev pub linux_key_j : ℕ
linux_key_j = 36

abbrev pub linux_key_k : ℕ
linux_key_k = 37

abbrev pub linux_key_l : ℕ
linux_key_l = 38

abbrev pub linux_key_semicolon : ℕ
linux_key_semicolon = 39

abbrev pub linux_key_apostrophe : ℕ
linux_key_apostrophe = 40

abbrev pub linux_key_grave : ℕ
linux_key_grave = 41

abbrev pub linux_key_backslash : ℕ
linux_key_backslash = 43

abbrev pub linux_key_z : ℕ
linux_key_z = 44

abbrev pub linux_key_x : ℕ
linux_key_x = 45

abbrev pub linux_key_c : ℕ
linux_key_c = 46

abbrev pub linux_key_v : ℕ
linux_key_v = 47

abbrev pub linux_key_b : ℕ
linux_key_b = 48

abbrev pub linux_key_n : ℕ
linux_key_n = 49

abbrev pub linux_key_m : ℕ
linux_key_m = 50

abbrev pub linux_key_comma : ℕ
linux_key_comma = 51

abbrev pub linux_key_dot : ℕ
linux_key_dot = 52

abbrev pub linux_key_slash : ℕ
linux_key_slash = 53

abbrev pub linux_key_space : ℕ
linux_key_space = 57

abbrev pub linux_key_up : ℕ
linux_key_up = 103

abbrev pub linux_key_left : ℕ
linux_key_left = 105

abbrev pub linux_key_right : ℕ
linux_key_right = 106

abbrev pub linux_key_down : ℕ
linux_key_down = 108

abbrev pub linux_key_page_up : ℕ
linux_key_page_up = 104

abbrev pub linux_key_page_down : ℕ
linux_key_page_down = 109

abbrev pub linux_key_home : ℕ
linux_key_home = 102

abbrev pub linux_key_end : ℕ
linux_key_end = 107

abbrev pub linux_key_insert : ℕ
linux_key_insert = 110

abbrev pub linux_key_delete : ℕ
linux_key_delete = 111

abbrev pub linux_key_leftctrl : ℕ
linux_key_leftctrl = 29

abbrev pub linux_key_rightctrl : ℕ
linux_key_rightctrl = 97

abbrev pub linux_key_leftshift : ℕ
linux_key_leftshift = 42

abbrev pub linux_key_rightshift : ℕ
linux_key_rightshift = 54

abbrev pub linux_key_leftalt : ℕ
linux_key_leftalt = 56

abbrev pub linux_key_rightalt : ℕ
linux_key_rightalt = 100

abbrev pub linux_key_leftmeta : ℕ
linux_key_leftmeta = 125

abbrev pub linux_key_rightmeta : ℕ
linux_key_rightmeta = 126

abbrev pub linux_key_capslock : ℕ
linux_key_capslock = 58
