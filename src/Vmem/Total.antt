-- ===== src/Vmem/Total.antt =====
-- `pg_getpage` of src/mm-vm.c as a whole: whichever branch it takes, it keeps the memory in order.
