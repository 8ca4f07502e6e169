-- ===== src/Strings.antt =====
-- lib/string.c of OS-lab2-master/pintos/src. A pointer to bytes is the list of the bytes from
-- there to the end of its object; an access past that end is a fault, `none`. Pointers handed in
-- are not null. A pointer into the argument is returned as an offset, a null pointer as an inner
-- `none`.
pub mod Segment
pub mod Memory
pub mod Text
pub mod Order
pub mod Copy
pub mod Find
pub mod Token
