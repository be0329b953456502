-- ===== src/Memory/Backing/Tests.antt =====
-- The heap of kernel/src/memory/heap.c over an empty root table and eight free pages.
use bethany.Prelude.{arith, refl, inl}
use bethany.Memory.Heap.{Heap, kmalloc}
use bethany.Memory.Vmm.Alloc.{vmm_mapper}
use bethany.Memory.Vmm.Sample.{root_level, machine, machine-IsValid}
use bethany.Memory.Backing.{IsHeapSpace, kmalloc-IsHeapSpace}

-- The heap has no page yet.
abbrev small : Heap
small = record {
  heap_start = 0xffff_9000_0000_0000;
  heap_end = 0xffff_9000_0000_0000;
  heap_current = 0xffff_9000_0000_0000;
}

machine-IsHeapSpace : IsHeapSpace 0xffff_9000_0000_0000 0xffff_9000_0000_0000 machine
machine-IsHeapSpace = record {
  level = root_level;
  valid = machine-IsValid;
  aligned = refl;
  up = omega arith;
  backed = inl (record {
    frame = λ w. 0;
    mapped = λ w lo hi. absurd (omega arith);
    used = λ w lo hi. absurd (omega arith);
    alone = λ w x lo hi lo' hi' e. absurd (omega arith);
  });
}

kmalloc-IsHeapSpace_example :
    let (_, h', v') = kmalloc vmm_mapper 3 9000 small machine in
    IsHeapSpace 0xffff_9000_0000_0000 h'.heap_end v'
kmalloc-IsHeapSpace_example =
    kmalloc-IsHeapSpace 0xffff_9000_0000_0000 0xffff_9000_0010_0000 (omega arith) 3 9000 small
      machine (omega arith) (omega arith) machine-IsHeapSpace
